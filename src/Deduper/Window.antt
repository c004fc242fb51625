-- ===== src/Deduper/Window.antt =====
-- What the deduper remembers: a key is refused while it was recorded within the time to live and
-- has not been pushed out.
use rstrader.Base.{
  ℕ, ◌+◌, ◌-◌, ◌≤◌, ◌<◌, ◌≡◌, refl, ap, ◌∙◌, Bool, true, false, ◌&&◌, ◌||◌, not, List, [], ◌∷◌,
  ◌++◌, map, length, length-append, leb, arith, Bool-cases, inl, inr, ◌⊎◌,
}
use rstrader.Base.Equality.{Eq}
use rstrader.Deduper.{Deduper, contains, insert}
use rstrader.Deduper.Loops.{key, IsMirror, IsValid, fresh_suffix, newest}
use rstrader.Deduper.Invariant.{after_insert, insert-Holds, insert-IsValid}

-- Instants do not fall along the queue, from the given one on.
abbrev pub IsChronological {ℓ} : {K : Type ℓ} → ℕ → List (K × ℕ) → Type 0
IsChronological t [] = Unit
IsChronological t ((k, ts) ∷ rest) = (t ≤ ts) × IsChronological ts rest

module _ {ℓ} {K : Type ℓ} ⦃e : Eq K⦄ where
  -- Some record of the key is no older than the time to live.
  abbrev pub seen_within : ℕ → ℕ → K → List (K × ℕ) → Bool
  seen_within ttl now k [] = false
  seen_within ttl now k ((j, ts) ∷ rest) =
      (e.beq j k && leb (now - ts) ttl) || seen_within ttl now k rest

  seen_young :
      (ttl now t : ℕ) (k : K) (l : List (K × ℕ))
      → now - t ≤ ttl
      → IsChronological t l
      → seen_within ttl now k l ≡ contains (map key l) k
  unfolding contains
  seen_young ttl now t k [] h c = refl
  seen_young ttl now t k ((j, ts) ∷ rest) h c =
      ground (arith, seen_young ttl now ts k rest (omega arith) c.1)

  seen-fresh_suffix :
      (ttl now t : ℕ) (k : K) (l : List (K × ℕ))
      → IsChronological t l
      → contains (map key (fresh_suffix ttl now l)) k ≡ seen_within ttl now k l
  unfolding contains
  seen-fresh_suffix ttl now t k [] c = refl
  seen-fresh_suffix ttl now t k ((j, ts) ∷ rest) c =
      ground (arith, seen-fresh_suffix ttl now ts k rest c.1, seen_young ttl now ts k rest)

  -- With a queue in order of time, `insert` answers true exactly when no record of the key is
  -- within the time to live.
  pub insert_first_seen :
      (k : K) (now : ℕ) (d : Deduper K)
      → IsMirror d
      → IsChronological 0 d.order
      → (insert k now d).1 ≡ not (seen_within d.ttl now k d.order)
  insert_first_seen k now d m c =
      (insert-Holds k now d m).0 ∙ ap not (seen-fresh_suffix d.ttl now 0 k d.order c)

  -- The record (k, at) stands in the queue with at most n records behind it.
  abbrev pub HasRecord : K → ℕ → ℕ → List (K × ℕ) → Type 0
  HasRecord k at n [] = ⊥
  HasRecord k at n ((j, ts) ∷ rest) =
      ((e.beq j k ≡ true) × (ts ≡ at) × (length rest ≤ n)) ⊎ HasRecord k at n rest

  HasRecord-fresh_suffix :
      (ttl now : ℕ) (k : K) (at n : ℕ) (l : List (K × ℕ))
      → now - at ≤ ttl
      → HasRecord k at n l
      → HasRecord k at n (fresh_suffix ttl now l)
  HasRecord-fresh_suffix ttl now k at n [] h r = r
  HasRecord-fresh_suffix ttl now k at n ((j, ts) ∷ rest) h r =
      ground (arith, HasRecord-fresh_suffix ttl now k at n rest h)

  HasRecord-newest :
      (c : ℕ) (k : K) (at n : ℕ) (l : List (K × ℕ))
      → n < c
      → HasRecord k at n l
      → HasRecord k at n (newest c l)
  HasRecord-newest c k at n [] h r = r
  HasRecord-newest c k at n ((j, ts) ∷ rest) h r = ground (arith, HasRecord-newest c k at n rest h)

  HasRecord-append :
      (k : K) (at n : ℕ) (l : List (K × ℕ)) (x : K × ℕ)
      → HasRecord k at n l
      → HasRecord k at (n + 1) (l ++ x ∷ [])
  HasRecord-append k at n [] x r = absurd r
  HasRecord-append k at n ((j, ts) ∷ rest) x r =
      ground (arith, HasRecord-append k at n rest x, length-append rest (x ∷ []))

  HasRecord-mono :
      (k : K) (at m n : ℕ) (l : List (K × ℕ)) → m ≤ n → HasRecord k at m l → HasRecord k at n l
  HasRecord-mono k at m n [] h r = r
  HasRecord-mono k at m n ((j, ts) ∷ rest) h r = ground (arith, HasRecord-mono k at m n rest h)

  HasRecord-last : (k : K) (at : ℕ) (l : List (K × ℕ)) → HasRecord k at 0 (l ++ (k, at) ∷ [])
  HasRecord-last k at [] = inl ((e.beq_iff k k).1 refl, refl, omega arith)
  HasRecord-last k at (x ∷ l) = inr (HasRecord-last k at l)

  contains_of_record :
      (k : K) (at n : ℕ) (l : List (K × ℕ)) → HasRecord k at n l → contains (map key l) k ≡ true
  unfolding contains
  contains_of_record k at n [] r = absurd r
  contains_of_record k at n ((j, ts) ∷ rest) r = ground (arith, contains_of_record k at n rest)

  -- One more insertion, of any key, ages the record by at most one place.
  after_insert-HasRecord :
      (j k : K) (now c t at n : ℕ) (l : List (K × ℕ))
      → now - at ≤ t
      → n + 1 < c
      → HasRecord k at n l
      → HasRecord k at (n + 1) (after_insert j now c t l)
  after_insert-HasRecord j k now c t at n l h small r =
      let live = fresh_suffix t now l in
      let kept = HasRecord-fresh_suffix t now k at n l h r in
      elim (Bool-cases (contains (map key live) j)) [
        | inl old ↦ rw old (HasRecord-mono k at n (n + 1) live (omega arith) kept)
        | inr new ↦ rw new (
            HasRecord-newest c k at (n + 1) (live ++ (j, now) ∷ []) small
              (HasRecord-append k at n live (j, now) kept))
      ]

  -- A run of insertions, oldest first.
  unfoldable pub insert_all : List (K × ℕ) → Deduper K → Deduper K
  insert_all [] d = d
  insert_all ((k, now) ∷ rest) d = insert_all rest (insert k now d).0

  abbrev pub AllUntil : ℕ → List (K × ℕ) → Type 0
  AllUntil t [] = Unit
  AllUntil t ((k, ts) ∷ rest) = (ts ≤ t) × AllUntil t rest

  insert_all-HasRecord :
      (k : K) (at n until : ℕ) (calls : List (K × ℕ)) (d : Deduper K)
      → IsValid d
      → until - at ≤ d.ttl
      → AllUntil until calls
      → n + length calls < d.capacity
      → HasRecord k at n d.order
      → let d' = insert_all calls d in
        IsValid d' × (d'.ttl ≡ d.ttl) × HasRecord k at (n + length calls) d'.order
  unfolding insert_all
  insert_all-HasRecord k at n until [] d v h a small r =
      (v, refl, HasRecord-mono k at n (n + 0) d.order (omega arith) r)
  insert_all-HasRecord k at n until ((j, now) ∷ calls) d v h a small r =
      let (v', cap, life) = insert-IsValid j now d v in
      let d' = (insert j now d).0 in
      let order : d'.order ≡ after_insert j now d.capacity d.ttl d.order =
        ((insert-Holds j now d v.mirror).1).queue in
      let r' : HasRecord k at (n + 1) d'.order = rw order (
        after_insert-HasRecord j k now d.capacity d.ttl at n d.order (omega arith) (omega arith)
          r) in
      let (vv, tt', rr) =
        insert_all-HasRecord k at (n + 1) until calls d' v' (omega arith) a.1 (omega arith) r' in
      (vv, tt' ∙ life, HasRecord-mono k at (n + 1 + length calls) _ _ (omega arith) rr)

  -- A key that was let through stays refused: within the time to live, after fewer further
  -- insertions than the capacity, whatever keys they are of, it is answered false.
  pub insert_duplicate :
      (k : K) (at later : ℕ) (calls : List (K × ℕ)) (d : Deduper K)
      → IsValid d
      → (insert k at d).1 ≡ true
      → later - at ≤ d.ttl
      → AllUntil later calls
      → length calls < d.capacity
      → (insert k later (insert_all calls (insert k at d).0)).1 ≡ false
  insert_duplicate k at later calls d v fresh h a small =
      let d' = (insert k at d).0 in
      let (v', cap, life) = insert-IsValid k at d v in
      let answer = insert-Holds k at d v.mirror in
      let live = fresh_suffix d.ttl at d.order in
      let unseen : contains (map key live) k ≡ false = ground (arith, answer.0) in
      let order : d'.order ≡ newest d.capacity (live ++ (k, at) ∷ []) =
        answer.1.queue ∙ (rw unseen) in
      let r : HasRecord k at 0 d'.order =
        rw order (HasRecord-newest d.capacity k at 0 _ (omega arith) (HasRecord-last k at live)) in
      let (vv, life', rr) =
        insert_all-HasRecord k at 0 later calls d' v' (omega arith) a (omega arith) r in
      let d'' = insert_all calls d' in
      (insert-Holds k later d'' vv.mirror).0
      ∙ ap not (
          contains_of_record k at (0 + length calls) _
            (HasRecord-fresh_suffix d''.ttl later k at _ d''.order (omega arith) rr))
