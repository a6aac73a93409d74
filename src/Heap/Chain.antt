-- ===== src/Heap/Chain.antt =====
-- The free lists of ShompOS/src/memory/heap.c: doubly linked, the head's `prev` unused, and the last
-- node's `next` pointing at the node itself.
use operating_system.Base.{
  ℕ, ◌≡◌, ◌≢◌, ◌⊎◌, inl, inr, ◌∙◌, List, [], ◌∷◌, ◌++◌, arith, ◌==◌, ◌∈◌, Distinct, has-append,
  ne_of_mem,
}
use operating_system.Base.{if◌then◌else◌}
use operating_system.Heap.{Heap, add_to_free_list, remove_from_free_list, slot}

-- From `p` the `next` pointers lead through `xs`, and each `prev` leads back.
abbrev pub Chain : Heap → ℕ → List ℕ → Type 0
Chain h p [] = h.next p ≡ p
Chain h p (x ∷ xs) = (h.next p ≡ x) × (h.prev x ≡ p) × Chain h x xs

-- A chain survives any change that spares its links.
pub Chain-frame :
    (h g : Heap) (p : ℕ) (xs : List ℕ)
    → ((a : ℕ) → a ∈ (p ∷ xs) → g.next a ≡ h.next a)
    → ((a : ℕ) → a ∈ xs → g.prev a ≡ h.prev a)
    → Chain h p xs
    → Chain g p xs
Chain-frame h g p [] sn sp c = sn p (ground arith) ∙ c
Chain-frame h g p (x ∷ xs) sn sp c = (
  ground (arith, sn p),
  ground (arith, sp x),
  Chain-frame h g x xs (λ a m. sn a (ground arith)) (λ a m. sp a (ground arith)) c.2,
)

-- The links after `add_to_free_list`, where the block and the head are apart.
module _ (b : ℕ) (h : Heap) (a : ℕ) (off : a ≢ b) where
  pub add_next_frame : a ≢ slot h (h.scale b) → (add_to_free_list b h).next a ≡ h.next a
  unfolding add_to_free_list
  add_next_frame ne = ground arith

  pub add_prev_frame : a ≢ h.next (slot h (h.scale b)) → (add_to_free_list b h).prev a ≡ h.prev a
  unfolding add_to_free_list
  add_prev_frame ne = ground arith

-- Adding a block that is on no list puts it in front of the list of its scale.
pub add-Chain :
    (b : ℕ) (h : Heap) (xs : List ℕ)
    → Chain h (slot h (h.scale b)) xs
    → Distinct (b ∷ slot h (h.scale b) ∷ xs)
    → Chain (add_to_free_list b h) (slot h (h.scale b)) (b ∷ xs)
unfolding add_to_free_list
add-Chain b h [] c d = ground arith
add-Chain b h (x ∷ xs) c d =
    let (e, back, rest) = c in
    let (out, d') = d in
    let (apart, d'') = d' in
    let (fresh, _) = d'' in
    (
      ground arith,
      ground arith,
      (
        ground arith,
        ground arith,
        Chain-frame h (add_to_free_list b h) x xs
            (λ a m.
              add_next_frame b h a (ne_of_mem (x ∷ xs) m (ground arith))
                (ne_of_mem (x ∷ xs) m apart))
            (λ a m.
              add_prev_frame b h a (ne_of_mem xs m (ground arith))
                (λ q. ne_of_mem xs m fresh (q ∙ e)))
            rest,
      ),
    )

-- The links after `remove_from_free_list`.
module _ (b : ℕ) (h : Heap) where
  unfoldable pub remove_next : ℕ → ℕ
  remove_next a =
      if a == b
      then b
      else (if a == h.prev b then (if h.next b == b then h.prev b else h.next b) else h.next a)

  unfoldable pub remove_prev : ℕ → ℕ
  remove_prev a = if a == b then b else (if a == h.next b then h.prev b else h.prev a)

  pub next-remove : (a : ℕ) → (remove_from_free_list b h).next a ≡ remove_next a
  unfolding remove_from_free_list remove_next
  next-remove a = ground arith

  pub prev-remove : (a : ℕ) → (remove_from_free_list b h).prev a ≡ remove_prev a
  unfolding remove_from_free_list remove_prev
  prev-remove a = ground arith

-- In a chain the block before a member is in the chain or is its head, and the one after it comes
-- later, unless it is the last.
pub prev_mem :
    (h : Heap) (p b : ℕ) (xs ys : List ℕ) → Chain h p (xs ++ b ∷ ys) → h.prev b ∈ (p ∷ xs)
prev_mem h p b [] ys c = ground arith
prev_mem h p b (x ∷ xs) ys c = ground (arith, prev_mem h x b xs ys c.2)

pub next_mem :
    (h : Heap) (p b : ℕ) (xs ys : List ℕ)
    → Chain h p (xs ++ b ∷ ys)
    → (h.next b ≡ b) ⊎ (h.next b ∈ ys)
next_mem h p b [] [] c = inl c.2
next_mem h p b [] (y ∷ ys) c = inr (ground arith)
next_mem h p b (x ∷ xs) ys c = next_mem h x b xs ys c.2

pub remove-Chain :
    (b : ℕ) (h : Heap) (p : ℕ) (xs ys : List ℕ)
    → Chain h p (xs ++ b ∷ ys)
    → Distinct (p ∷ (xs ++ b ∷ ys))
    → Chain (remove_from_free_list b h) p (xs ++ ys)
unfolding remove_next remove_prev
remove-Chain b h p [] [] c d = ground (arith, next-remove b h p)
remove-Chain b h p [] (y ∷ ys) c d =
    let (out, d') = d in
    let (off, d'') = d' in
    let (fresh, _) = d'' in
    (
      ground (arith, next-remove b h p),
      ground (arith, prev-remove b h y),
      Chain-frame h (remove_from_free_list b h) y ys
          (λ a m.
            ground
              (arith, next-remove b h a, ne_of_mem (y ∷ ys) m off, ne_of_mem {b = p} (y ∷ ys) m))
          (λ a m. ground (arith, prev-remove b h a, ne_of_mem ys m fresh, ne_of_mem {b = b} ys m))
          c.2.2,
    )
remove-Chain b h p (x ∷ xs) ys c d =
    let (out, d') = d in
    let split = has-append p xs (b ∷ ys) in
    let split' = has-append x xs (b ∷ ys) in
    let before = prev_mem h x b xs ys c.2 in
    let after = next_mem h x b xs ys c.2 in
    (
      ground (arith, next-remove b h p, ne_of_mem {b = p} (x ∷ xs) before),
      elim after [
        | inl last ↦ ground (arith, prev-remove b h x)
        | inr later ↦ ground (arith, prev-remove b h x, ne_of_mem {b = x} ys later)
      ],
      remove-Chain b h x xs ys c.2 d',
    )
