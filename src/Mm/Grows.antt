-- ===== src/Mm/Grows.antt =====
-- The break of the heap under the functions of mm.c: only `extend_heap` moves it, and it moves it up.
use malloc_lab.Base.{
  ℕ, ◌+◌, ◌*◌, ◌/◌, ◌%◌, ◌≤◌, ◌≡◌, refl, sym, ◌∙◌, subst, Bool, true, false, Bool-cases, inl, inr,
  Option, none, some, arith, if◌then◌else◌, ◌==◌, ◌||◌, leb, ltb,
}
use malloc_lab.Memory.{Memory, get, memcpy}
use malloc_lab.Memlib.{Vm, mem_sbrk}
use malloc_lab.Mm.{
  Heap, insert_node, remove_node, unlist, merge, coalesce, place, found_block, extend_heap,
  find_fit, mm_malloc, mm_free, mm_realloc, move_block, adjust_block, roam, ◌>>=◌,
}
use malloc_lab.Mm.Macros.{truthy, sub_word, word, max_of, chunksize, wsize}

insert_node-vm : (p : ℕ) (h : Heap) → (insert_node p h).vm ≡ h.vm
unfolding insert_node
insert_node-vm p h = ground arith

remove_node-vm : (p : ℕ) (h : Heap) → (remove_node p h).vm ≡ h.vm
unfolding remove_node
remove_node-vm p h = ground arith

unlist-vm : (f : Memory → ℕ) (p : ℕ) (h : Heap) → (unlist f p h).vm ≡ h.vm
unfolding unlist
unlist-vm f p h = ground (arith, remove_node-vm (f h.bytes) h)

if-vm : (b : Bool) (x y : Heap) (v : Vm) → x.vm ≡ v → y.vm ≡ v → (if b then x else y).vm ≡ v
if-vm true x y v e f = e
if-vm false x y v e f = f

place-vm : (p asize : ℕ) (h : Heap) → (place p asize h).vm ≡ h.vm
unfolding place
place-vm p asize h = if-vm _ _ _ h.vm (insert_node-vm _ _ ∙ after) after
  where
    after :
        (if (remove_node p h).rover == p
          then roam (remove_node p h) (get (remove_node p h).bytes (p + 4))
          else remove_node p h).vm
        ≡ h.vm
    after = if-vm _ _ _ h.vm (remove_node-vm p h) (remove_node-vm p h)

merge-vm : (a b : Bool) (p size : ℕ) (h : Heap) → (merge a b p size h).1.vm ≡ h.vm
unfolding merge
merge-vm true true p size h = refl
merge-vm true false p size h = unlist-vm _ p h
merge-vm false true p size h = unlist-vm _ p h
merge-vm false false p size h = unlist-vm _ p _ ∙ unlist-vm _ p h

coalesce-vm : (p : ℕ) (h : Heap) → (coalesce p h).1.vm ≡ h.vm
unfolding coalesce
coalesce-vm p h = merge-vm _ _ p _ h

pub mm_free-vm : (p : ℕ) (h : Heap) → (mm_free p h).vm ≡ h.vm
unfolding mm_free
mm_free-vm p h = insert_node-vm _ _ ∙ coalesce-vm p _

-- The start of the heap stays, and the break does not go down.
pub record Grows (vm vm' : Vm) : Type 0 where
  pub start : vm'.start_brk ≡ vm.start_brk
  pub brk : vm.brk ≤ vm'.brk

Grows-same : (vm vm' : Vm) → vm' ≡ vm → Grows vm vm'
Grows-same vm vm' e = subst (Grows vm) (sym e) (record { start = refl; brk = omega arith })

mem_sbrk-Grows : (n : ℕ) (vm : Vm) → Grows vm (mem_sbrk n vm).1
unfolding mem_sbrk
mem_sbrk-Grows n vm = elim (Bool-cases (leb 0x8000_0000 n || ltb vm.max_addr (vm.brk + n))) [
  | inl t ↦ rw t (record { start = refl; brk = omega arith })
  | inr f ↦ rw f (record { start = refl; brk = omega arith })
]

abbrev after_sbrk : Option ℕ → ℕ → Heap → ℕ × Heap
after_sbrk area size h = elim area [ none ↦ (0, h) | some bp ↦ found_block bp size h ]

after_sbrk-vm : (area : Option ℕ) (size : ℕ) (h : Heap) → (after_sbrk area size h).1.vm ≡ h.vm
unfolding found_block
after_sbrk-vm none size h = refl
after_sbrk-vm (some bp) size h = coalesce-vm bp _

extend_heap-Grows : (words : ℕ) (h : Heap) → Grows h.vm (extend_heap words h).1.vm
unfolding extend_heap
extend_heap-Grows words h =
    subst (Grows h.vm)
      (sym (after_sbrk-vm (mem_sbrk size h.vm).0 size (record h { vm = (mem_sbrk size h.vm).1 })))
      (mem_sbrk-Grows size h.vm)
  where
    size : ℕ
    size = if truthy (words % 2) then word ((words + 1) * wsize) else word (words * wsize)

find_fit-vm : (asize : ℕ) (h : Heap) (k : ℕ × Heap) → find_fit asize h ≡ some k → k.1.vm ≡ h.vm
unfolding find_fit
find_fit-vm asize h k e = ground arith

abbrev malloc_body : ℕ → ℕ × Heap → Option (ℕ × Heap)
malloc_body asize (bp, h) =
    if truthy bp
    then some (bp, place bp asize h)
    else (let (bp, h) = extend_heap (max_of asize chunksize / wsize) h in
        if bp == 0 then some (0, h) else (let h = insert_node bp h in some (bp, place bp asize h)))

malloc_body-Grows :
    (asize : ℕ) (r k : ℕ × Heap) → malloc_body asize r ≡ some k → Grows r.1.vm k.1.vm
malloc_body-Grows asize (bp, h) k e = record {
  start = ground (arith, grown.start, placed, place-vm bp asize h);
  brk = ground (arith, grown.brk, placed, place-vm bp asize h);
}
  where
    r : ℕ × Heap
    r = extend_heap (max_of asize chunksize / wsize) h

    grown : Grows h.vm r.1.vm
    grown = extend_heap-Grows (max_of asize chunksize / wsize) h

    placed : (place r.0 asize (insert_node r.0 r.1)).vm ≡ r.1.vm
    placed = place-vm _ _ _ ∙ insert_node-vm _ _

malloc_then :
    (asize : ℕ) (vm : Vm) (o : Option (ℕ × Heap)) (k : ℕ × Heap)
    → ((r : ℕ × Heap) → o ≡ some r → r.1.vm ≡ vm)
    → (o >>= malloc_body asize) ≡ some k
    → Grows vm k.1.vm
malloc_then asize vm none k f e = cc
malloc_then asize vm (some r) k f e =
    subst (λ v. Grows v k.1.vm) (f r refl) (malloc_body-Grows asize r k e)

-- `mm_malloc` moves the break up, or leaves it.
pub mm_malloc-Grows :
    (size : ℕ) (h : Heap) (k : ℕ × Heap) → mm_malloc size h ≡ some k → Grows h.vm k.1.vm
unfolding mm_malloc
mm_malloc-Grows size h k e = elim (Bool-cases (size == 0)) [
  | inl t ↦ Grows-same _ _ (ground arith)
  | inr f ↦
      malloc_then (adjust_block size) h.vm (find_fit (adjust_block size) h) k
        (find_fit-vm (adjust_block size) h) (rw f at e)
]

abbrev move_body : ℕ → ℕ → ℕ → ℕ × Heap → Option (ℕ × Heap)
move_body ptr size oldsize (newptr, h) =
    if newptr == 0
    then some (0, h)
    else (let copy_size = sub_word oldsize 8 in
        let copy_size = if ltb size copy_size then size else copy_size in
        let h = record h { bytes = memcpy h.bytes newptr ptr copy_size } in
        some (newptr, mm_free ptr h))

move_body-vm :
    (ptr size oldsize : ℕ) (r k : ℕ × Heap)
    → move_body ptr size oldsize r ≡ some k
    → k.1.vm ≡ r.1.vm
move_body-vm ptr size oldsize (newptr, h) k e =
    ground (arith, mm_free-vm ptr (record h { bytes = memcpy h.bytes newptr ptr copy_size }))
  where
    copy_size : ℕ
    copy_size = if ltb size (sub_word oldsize 8) then size else sub_word oldsize 8

move_then :
    (ptr size oldsize : ℕ) (vm : Vm) (o : Option (ℕ × Heap)) (k : ℕ × Heap)
    → ((r : ℕ × Heap) → o ≡ some r → Grows vm r.1.vm)
    → (o >>= move_body ptr size oldsize) ≡ some k
    → Grows vm k.1.vm
move_then ptr size oldsize vm none k f e = cc
move_then ptr size oldsize vm (some r) k f e =
    subst (Grows vm) (sym (move_body-vm ptr size oldsize r k e)) (f r refl)

move_block-Grows :
    (ptr size oldsize : ℕ) (h : Heap) (k : ℕ × Heap)
    → move_block ptr size oldsize h ≡ some k
    → Grows h.vm k.1.vm
unfolding move_block
move_block-Grows ptr size oldsize h k e =
    move_then ptr size oldsize h.vm (mm_malloc size h) k (mm_malloc-Grows size h) e

if-Grows :
    (b : Bool) (x y : Option (ℕ × Heap)) (vm : Vm) (k : ℕ × Heap)
    → (x ≡ some k → Grows vm k.1.vm)
    → (y ≡ some k → Grows vm k.1.vm)
    → (if b then x else y) ≡ some k
    → Grows vm k.1.vm
if-Grows true x y vm k f g e = f e
if-Grows false x y vm k f g e = g e

same_heap :
    (h : Heap) (p : ℕ) (h' : Heap) (k : ℕ × Heap)
    → h'.vm ≡ h.vm
    → some (p, h') ≡ some k
    → Grows h.vm k.1.vm
same_heap h p h' k v e = Grows-same h.vm k.1.vm (ground arith)

-- `mm_realloc` moves the break up, or leaves it.
pub mm_realloc-Grows :
    (ptr size : ℕ) (h : Heap) (k : ℕ × Heap) → mm_realloc ptr size h ≡ some k → Grows h.vm k.1.vm
unfolding mm_realloc
mm_realloc-Grows ptr size h k = if-Grows _ _ _ h.vm k (mm_malloc-Grows size h k) (
    if-Grows _ _ _ h.vm k (same_heap h 0 _ k (mm_free-vm ptr h)) (
      if-Grows _ _ _ h.vm k (same_heap h ptr h k refl) (
        if-Grows _ _ _ h.vm k (same_heap h ptr _ k (remove_node-vm _ h))
          (move_block-Grows ptr size _ h k))))
