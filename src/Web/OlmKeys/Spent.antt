-- ===== src/Web/OlmKeys/Spent.antt =====
-- A one-time key that was handed out stays a tombstone.
use vortex_reloaded.Base.{
  String, refl, ap, ◌∙◌, ◌≡◌, ◌≢◌, Bool, true, false, not, ◌&&◌, ◌||◌, List, [], ◌∷◌, ◌++◌, some,
  any, all, find, filter, Bool-cases, inl, inr, if◌then◌else◌, arith, str_eq, eq_iff,
}
use vortex_reloaded.Base.Sets.{has}
use vortex_reloaded.Web.OlmKeys.{OneTimeKey, StoredKey, is_slot, is_unclaimed}
use vortex_reloaded.Web.OlmKeys.Publish.{insert_key, insert_keys, prune, stale_ids}
use vortex_reloaded.Web.OlmKeys.Claim.{consume}

module _ (u d i : String) where
  -- The slot has a row, and every row of it is consumed.
  abbrev pub is_spent : List StoredKey → Bool
  is_spent ks = any (is_slot u d i) ks && all (λ k. not (is_slot u d i k) || k.consumed) ks

  any-filter-kept :
      (p : StoredKey → Bool) (ks : List StoredKey)
      → ((k : StoredKey) → k.consumed ≡ true → p k ≡ true)
      → is_spent ks ≡ true
      → any (is_slot u d i) (filter p ks) ≡ true
  any-filter-kept p [] keeps h = cc
  any-filter-kept p (k ∷ ks) keeps h = elim (Bool-cases (is_slot u d i k)) [
    | inl e ↦ let stays = keeps k (ground (arith, h, e)) in rw stays (ground (arith, e))
    | inr e ↦ elim (Bool-cases (p k)) [
      | inl stays ↦ rw stays (ground (arith, any-filter-kept p ks keeps (ground (arith, h, e))))
      | inr goes ↦ rw goes (any-filter-kept p ks keeps (ground (arith, h, e)))
    ]
  ]

  all-filter :
      (p q : StoredKey → Bool) (ks : List StoredKey) → all q ks ≡ true → all q (filter p ks) ≡ true
  all-filter p q [] h = refl
  all-filter p q (k ∷ ks) h = ground (arith, all-filter p q ks)

  pub prune-is_spent :
      (v e : String) (ks : List StoredKey) → is_spent ks ≡ true → is_spent (prune v e ks) ≡ true
  unfolding prune
  prune-is_spent v e ks h = ground (
    arith,
    h,
    any-filter-kept (λ k. not (is_unclaimed v e k && has k.key.key_id (stale_ids v e ks))) ks
        (λ k c. ground (arith, c)) h,
    all-filter (λ k. not (is_unclaimed v e k && has k.key.key_id (stale_ids v e ks)))
        (λ k. not (is_slot u d i k) || k.consumed) ks,
  )

  any-append :
      (p : StoredKey → Bool) (ks ls : List StoredKey) → any p ks ≡ true → any p (ks ++ ls) ≡ true
  any-append p [] ls h = cc
  any-append p (k ∷ ks) ls h = ground (arith, any-append p ks ls)

  all-snoc :
      (p : StoredKey → Bool) (ks : List StoredKey) (l : StoredKey)
      → all p ks ≡ true
      → p l ≡ true
      → all p (ks ++ l ∷ []) ≡ true
  all-snoc p [] l h e = ground (arith, e)
  all-snoc p (k ∷ ks) l h e = ground (arith, all-snoc p ks l, e)

  insert_key-is_spent :
      (v e : String) (k : OneTimeKey) (ks : List StoredKey)
      → is_spent ks ≡ true
      → is_spent (insert_key v e k ks) ≡ true
  insert_key-is_spent v e k ks h = elim (Bool-cases (any (is_slot v e k.key_id) ks)) [
    | inl old ↦ rw old h
    | inr new ↦
        let row : StoredKey = record { user_id = v; device_id = e; key = k; consumed = false } in
        let other : is_slot u d i row ≡ false = not-slot v e k ks h new in
        rw new (
          ground (
            arith,
            h,
            any-append (is_slot u d i) ks (row ∷ []),
            all-snoc (λ k. not (is_slot u d i k) || k.consumed) ks row,
            other,
          ))
  ]
    where
      not-slot :
          (v e : String) (k : OneTimeKey) (ks : List StoredKey)
          → is_spent ks ≡ true
          → any (is_slot v e k.key_id) ks ≡ false
          → is_slot u d i (record { user_id = v; device_id = e; key = k; consumed = false }) ≡ false
      not-slot v e k ks h new =
          elim (Bool-cases ((str_eq v u && str_eq e d) && str_eq k.key_id i)) [
            | inr apart ↦ apart
            | inl same ↦
                let a : v ≡ u = (eq_iff v u).0 (ground (arith, same)) in
                let b : e ≡ d = (eq_iff e d).0 (ground (arith, same)) in
                let c : k.key_id ≡ i = (eq_iff k.key_id i).0 (ground (arith, same)) in
                ground (arith, h, rw (a, b, c) at new)
          ]

  pub insert_keys-is_spent :
      (v e : String) (new : List OneTimeKey) (old : List StoredKey)
      → is_spent old ≡ true
      → is_spent (insert_keys v e new old) ≡ true
  unfolding insert_keys
  insert_keys-is_spent v e [] old h = h
  insert_keys-is_spent v e (k ∷ new) old h =
      insert_keys-is_spent v e new (insert_key v e k old) (insert_key-is_spent v e k old h)

  consume-slot :
      (v e j : String) (k : StoredKey)
      → is_slot u d i
          (if is_slot v e j k && not k.consumed then record k { consumed = true } else k)
        ≡ is_slot u d i k
  consume-slot v e j k = ground arith

  consume-any :
      (v e j : String) (ks : List StoredKey)
      → any (is_slot u d i) (consume v e j ks) ≡ any (is_slot u d i) ks
  consume-any v e j [] = refl
  consume-any v e j (k ∷ ks) = rw (consume-slot v e j k, consume-any v e j ks) refl

  consume-all :
      (v e j : String) (ks : List StoredKey)
      → all (λ k. not (is_slot u d i k) || k.consumed) ks ≡ true
      → all (λ k. not (is_slot u d i k) || k.consumed) (consume v e j ks) ≡ true
  consume-all v e j [] h = refl
  consume-all v e j (k ∷ ks) h = elim (Bool-cases (is_slot v e j k && not k.consumed)) [
    | inl c ↦ rw c (ground (arith, consume-all v e j ks, h))
    | inr c ↦ rw c (ground (arith, consume-all v e j ks, h))
  ]

  pub consume-is_spent :
      (v e j : String) (ks : List StoredKey)
      → is_spent ks ≡ true
      → is_spent (consume v e j ks) ≡ true
  consume-is_spent v e j ks h = ground (arith, h, consume-any v e j ks, consume-all v e j ks)

  -- What is handed out is spent from then on.
  consumed-all :
      (ks : List StoredKey)
      → all (λ k. not (is_slot u d i k) || k.consumed) (consume u d i ks) ≡ true
  consumed-all [] = refl
  consumed-all (k ∷ ks) = elim (Bool-cases (is_slot u d i k && not k.consumed)) [
    | inl c ↦ rw c (ground (arith, consumed-all ks))
    | inr c ↦ rw c (ground (arith, consumed-all ks))
  ]

  found-any :
      (ks : List StoredKey) (k : StoredKey)
      → find (is_unclaimed u d) ks ≡ some k
      → k.key.key_id ≡ i
      → any (is_slot u d i) ks ≡ true
  found-any [] k h e = cc
  found-any (l ∷ ks) k h e = elim (Bool-cases (is_unclaimed u d l)) [
    | inl c ↦
        let same : l ≡ k = cc (rw c at h) in
        let name : l.key.key_id ≡ i = ap (λ x. x.key.key_id) same ∙ e in
        ground (arith, c, name, eq_iff l.key.key_id i)
    | inr c ↦ ground (arith, found-any ks k (rw c at h) e)
  ]

  pub handed-is_spent :
      (ks : List StoredKey) (k : StoredKey)
      → find (is_unclaimed u d) ks ≡ some k
      → k.key.key_id ≡ i
      → is_spent (consume u d i ks) ≡ true
  handed-is_spent ks k h e =
      ground (arith, consumed-all ks, consume-any u d i ks, found-any ks k h e)

  -- What is spent is not found again.
  pub is_spent-find :
      (ks : List StoredKey) (k : StoredKey)
      → all (λ k. not (is_slot u d i k) || k.consumed) ks ≡ true
      → find (is_unclaimed u d) ks ≡ some k
      → k.key.key_id ≢ i
  is_spent-find [] k h f e = cc
  is_spent-find (l ∷ ks) k h f e = elim (Bool-cases (is_unclaimed u d l)) [
    | inl c ↦
        let same : l ≡ k = cc (rw c at f) in
        let name : l.key.key_id ≡ i = ap (λ x. x.key.key_id) same ∙ e in
        ground (arith, c, h, name, eq_iff l.key.key_id i)
    | inr c ↦ is_spent-find ks k (ground (arith, h)) (rw c at f) e
  ]
