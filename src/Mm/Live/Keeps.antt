-- ===== src/Mm/Live/Keeps.antt =====
-- The contents of the allocated blocks of mm.c, under `mm_malloc`, `mm_free` and `mm_realloc`.
use malloc_lab.Base.{
  ℕ, ◌+◌, ◌-◌, ◌≤◌, ◌<◌, ◌≡◌, ◌≢◌, ◌⊎◌, inl, inr, sym, subst, [], ◌∷◌, ◌++◌, arith, some,
}
use malloc_lab.Mm.{Heap, mm_malloc, mm_free}
use malloc_lab.Mm.FreeList.{Clear}
use malloc_lab.Mm.Zip.{first}
use malloc_lab.Mm.Frame.{Keeps}
use malloc_lab.Mm.Frame.Coalesce.{mm_free_frame}
use malloc_lab.Mm.Malloc.Keeps.{malloc-Keeps}
use malloc_lab.Mm.Coalesce.{absorbed}
use malloc_lab.Mm.Live.{Live}
use malloc_lab.Mm.Live.In.{In, In-++, found_before, found_behind, In-Clear}
use malloc_lab.Mm.Live.Represents.{Represents, found}

pub found_more :
    (p n : ℕ) (low high : Live) (x : ℕ × ℕ) → In p n (low ++ high) → In p n (low ++ (x ∷ high))
found_more p n [] high x i = inr i
found_more p n (y ∷ low) high x (inl e) = inl e
found_more p n (y ∷ low) high x (inr i) = inr (found_more p n low high x i)

pub mm_malloc-Keeps :
    (h : Heap) (l : Live) (size p n : ℕ) (k : ℕ × Heap)
    → Represents h l
    → size ≢ 0
    → size + 15 < 0x1_0000_0000
    → mm_malloc size h ≡ some k
    → In p n l
    → Keeps p (n - 8) h.bytes k.1.bytes
mm_malloc-Keeps h l size p n k r ne low runs i =
    malloc-Keeps h r.blocks r.nodes size p n k r.heap ne low runs (subst (In p n) (sym r.view) i)

module _ (h : Heap) (low : Live) (q m : ℕ) (high : Live) (r : Represents h (low ++ ((q, m) ∷ high)))
    (p n : ℕ) (i : In p n (low ++ high)) where
  pub clear_payload : (16 ≤ n) × Clear p (n - 8) r.nodes
  clear_payload =
      In-Clear h r.blocks r.nodes p n r.heap
        (subst (In p n) (sym r.view) (found_more p n low high (q, m) i))

  -- The block does not overlap the other one and its free neighbours.
  pub apart_found :
      (p + n ≤ q - absorbed (found h low q m high r).before)
      ⊎ (q + m + absorbed (found h low q m high r).behind ≤ p)
  apart_found =
      let f = found h low q m high r in
      elim (In-++ p n low high i) [
        | inl a ↦ inl (
            found_before h.bytes (first h.vm) q f.before p n f.zip.space.back
              (subst (In p n) (sym f.lows) a))
        | inr b ↦ inr (
            found_behind h.bytes (q + m) h.vm.brk f.behind p n f.zip.space.tiles.1
              (subst (In p n) (sym f.highs) b))
      ]

  pub mm_free-Keeps : Keeps p (n - 8) h.bytes (mm_free q h).bytes
  mm_free-Keeps =
      let f = found h low q m high r in
      mm_free_frame p (n - 8) h f.before q m f.behind r.nodes f.zip clear_payload.1
        (omega (arith, apart_found, clear_payload.0))

-- `mm_malloc` of a request of at least one byte that does not wrap leaves each byte of the
-- payload of each allocated block of a well-formed heap as it is.
pub mm_malloc_contents :
    (h : Heap) (l : Live) (size p n : ℕ) (k : ℕ × Heap)
    → Represents h l
    → size ≢ 0
    → size + 15 < 0x1_0000_0000
    → mm_malloc size h ≡ some k
    → In p n l
    → (b : ℕ) → p ≤ b
    → b + 8 < p + n
    → k.1.bytes b ≡ h.bytes b
mm_malloc_contents h l size p n k r ne low runs i b lo hi =
    mm_malloc-Keeps h l size p n k r ne low runs i b lo (omega arith)

-- `mm_free` of an allocated block of a well-formed heap leaves each byte of the payload of each
-- other allocated block as it is.
pub mm_free_contents :
    (h : Heap) (low : Live) (q m : ℕ) (high : Live)
    → Represents h (low ++ ((q, m) ∷ high))
    → (p n : ℕ) → In p n (low ++ high)
    → (b : ℕ) → p ≤ b
    → b + 8 < p + n
    → (mm_free q h).bytes b ≡ h.bytes b
mm_free_contents h low q m high r p n i b lo hi =
    mm_free-Keeps h low q m high r p n i b lo (omega arith)
