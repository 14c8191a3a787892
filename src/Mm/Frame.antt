-- ===== src/Mm/Frame.antt =====
-- What the functions of mm.c do not write: the payload of a block that they are not called with.
pub mod Coalesce
use malloc_lab.Base.{
  ℕ, ◌+◌, ◌-◌, ◌%◌, ◌≤◌, ◌<◌, ◌≡◌, refl, ◌⊎◌, ◌∙◌, true, Bool, List, [], ◌∷◌, arith, subst, sym, ap,
}
use malloc_lab.Memory.{Memory, get, put, Apart, put-Apart}
use malloc_lab.Mm.{Heap, write, mark, insert_node, remove_node}
use malloc_lab.Mm.FreeList.{has, Clear, Clear-has, Links}
use malloc_lab.Mm.FreeList.Insert.{inserted, insert_node-bytes}
use malloc_lab.Mm.FreeList.Remove.{unlinked, remove_node-bytes, Links-listed}
use malloc_lab.Mm.Layout.{bit}
use malloc_lab.Mm.Zip.Mark.{tagged, mark-bytes}

-- The `k` bytes from `a` on are the same.
abbrev pub Keeps : ℕ → ℕ → Memory → Memory → Type 0
Keeps a k m m' = (b : ℕ) → a ≤ b → b < a + k → m' b ≡ m b

module _ (a k : ℕ) where
  pub Keeps-put : (m : Memory) (p v : ℕ) → Apart p 4 a k → Keeps a k m (put m p v)
  Keeps-put m p v h b lo hi = put-Apart m p v b (omega arith)

  pub Keeps-trans : (m n o : Memory) → Keeps a k m n → Keeps a k n o → Keeps a k m o
  Keeps-trans m n o f g b lo hi = g b lo hi ∙ f b lo hi

  pub mark-Keeps :
      (h : Heap) (q n : ℕ) (t : Bool)
      → n % 8 ≡ 0
      → n + 8 ≤ 0x1_0000_0000
      → Apart (q - 4) 4 a k
      → Apart (q + n - 8) 4 a k
      → Keeps a k h.bytes (mark q n (bit t) h).bytes
  mark-Keeps h q n t round low front end =
      subst (λ (g : Heap). Keeps a k h.bytes g.bytes) (sym (mark-bytes h q n t round low))
        (Keeps-trans h.bytes (put h.bytes (q - 4) (n + bit t)) (tagged h.bytes q n t)
          (Keeps-put h.bytes (q - 4) (n + bit t) front)
          (Keeps-put (put h.bytes (q - 4) (n + bit t)) (q + n - 8) (n + bit t) end))

  inserted-Keeps :
      (m : Memory) (bp head : ℕ) (xs : List ℕ)
      → Apart bp 8 a k
      → (xs ≡ []) ⊎ Apart a k head 8
      → Keeps a k m (inserted m bp head xs)
  inserted-Keeps m bp head [] h g b lo hi =
      ground (arith, put-Apart (put m (bp + 4) head) bp 0 b, put-Apart m (bp + 4) head b)
  inserted-Keeps m bp head (x ∷ xs) h g b lo hi = ground (
    arith,
    put-Apart (put (put m (bp + 4) head) bp 0) head bp b,
    put-Apart (put m (bp + 4) head) bp 0 b,
    put-Apart m (bp + 4) head b,
  )

  first_Apart :
      (m : Memory) (p : ℕ) (xs : List ℕ) → Clear a k xs → Links m 0 p xs → (xs ≡ []) ⊎ Apart a k p 8
  first_Apart m p [] c l = ground arith
  first_Apart m p (x ∷ xs) c l = ground arith

  pub insert_node-Keeps :
      (bp : ℕ) (h : Heap) (xs : List ℕ)
      → Links h.bytes 0 h.free_list_head xs
      → Clear a k xs
      → Apart bp 8 a k
      → Keeps a k h.bytes (insert_node bp h).bytes
  insert_node-Keeps bp h xs l c apart =
      subst (Keeps a k h.bytes) (sym (insert_node-bytes bp h xs l)) (
        inserted-Keeps h.bytes bp h.free_list_head xs apart
          (first_Apart h.bytes h.free_list_head xs c l))

  unlinked-Keeps :
      (m : Memory) (pred succ : ℕ)
      → (pred ≡ 0) ⊎ Apart a k pred 8
      → (succ ≡ 0) ⊎ Apart a k succ 8
      → Keeps a k m (unlinked m pred succ)
  unlinked-Keeps m pred succ p s b lo hi = ground (
    arith,
    put-Apart (put m (pred + 4) succ) succ pred b,
    put-Apart m (pred + 4) succ b,
    put-Apart m succ pred b,
  )

  pub remove_node-Keeps :
      (bp : ℕ) (h : Heap) (xs : List ℕ)
      → Links h.bytes 0 h.free_list_head xs
      → has bp xs ≡ true
      → Clear a k xs
      → Keeps a k h.bytes (remove_node bp h).bytes
  remove_node-Keeps bp h xs l on c =
      let ends = Links-listed h.bytes h.free_list_head bp xs l on in
      subst (Keeps a k h.bytes) (sym (remove_node-bytes bp h)) (
        unlinked-Keeps h.bytes (get h.bytes bp) (get h.bytes (bp + 4))
          (ground (arith, ends, Clear-has a k (get h.bytes bp) xs c))
          (ground (arith, ends, Clear-has a k (get h.bytes (bp + 4)) xs c)))
