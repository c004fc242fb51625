-- ===== src/Deduper/Invariant.antt =====
-- The set holds exactly the keys of the queue, each once, and no more than the capacity.
use rstrader.Base.{
  ℕ, ◌≤◌, ◌≡◌, refl, sym, ◌∙◌, ap, List, [], ◌∷◌, ◌++◌, map, length, if◌then◌else◌, not, arith,
  Bool-cases, inl, inr,
}
use mathlib.Core.Path.{subst}
use rstrader.Base.Equality.{Eq}
use rstrader.Deduper.{
  Deduper, contains, add, prune, enforce_from, enforce_capacity, record_seen, insert,
}
use rstrader.Deduper.Loops.{
  key, IsMirror, IsValid, Holds, Distinct, Distinct-append, fresh_suffix, newest, prune_from-Holds,
  length-map-key, enforce_from-Holds, Distinct-fresh_suffix, Distinct-newest, length-newest,
  length-fresh_suffix,
}

module _ {ℓ} {K : Type ℓ} ⦃e : Eq K⦄ where
  enforce_capacity-Holds :
      (c t : ℕ) (l : List (K × ℕ)) (d : Deduper K)
      → Holds l c t d
      → Holds (newest c l) c t (enforce_capacity d)
  unfolding enforce_capacity
  enforce_capacity-Holds c t l d h =
      subst (λ q. Holds (newest c l) c t (enforce_from q d)) (sym h.queue)
        (enforce_from-Holds c t l d h)

  -- The queue that `insert` leaves.
  abbrev pub after_insert : K → ℕ → ℕ → ℕ → List (K × ℕ) → List (K × ℕ)
  after_insert k now c t l =
      let live = fresh_suffix t now l in
      if contains (map key live) k then live else newest c (live ++ (k, now) ∷ [])

  prune-Holds :
      (now : ℕ) (d : Deduper K)
      → d.set ≡ map key d.order
      → Holds (fresh_suffix d.ttl now d.order) d.capacity d.ttl (prune now d)
  unfolding prune
  prune-Holds now d h =
      prune_from-Holds now d.capacity d.ttl d.order d
        (record { queue = refl; keys = h; cap = refl; life = refl })

  map-key-append :
      (l : List (K × ℕ)) (k : K) (ts : ℕ) → map key (l ++ (k, ts) ∷ []) ≡ map key l ++ k ∷ []
  map-key-append [] k ts = refl
  map-key-append (x ∷ l) k ts = ap (◌∷◌ (key x)) (map-key-append l k ts)

  record_seen-Holds :
      (k : K) (now c t : ℕ) (l : List (K × ℕ)) (d : Deduper K)
      → Holds l c t d
      → ((record_seen k now d).1 ≡ not (contains (map key l) k))
        × Holds
            (if contains (map key l) k then l else newest c (l ++ (k, now) ∷ []))
            c
            t
            (record_seen k now d).0
  unfolding record_seen add
  record_seen-Holds k now c t l d h =
      let same = ap (λ s. contains s k) h.keys in
      elim (Bool-cases (contains d.set k)) [
        | inl old ↦
            rw (old, sym same ∙ old)
              (refl, record { queue = h.queue; keys = h.keys; cap = h.cap; life = h.life })
        | inr new ↦
            rw (new, sym same ∙ new)
              (
                refl,
                enforce_capacity-Holds c t _ _ (record {
                  queue = ap (λ q. q ++ (k, now) ∷ []) h.queue;
                  keys = ap (λ q. q ++ k ∷ []) h.keys ∙ sym (map-key-append l k now);
                  cap = h.cap;
                  life = h.life;
                }),
              )
      ]

  -- One `insert`, from any valid state: its answer and the queue and set it leaves.
  pub insert-Holds :
      (k : K) (now : ℕ) (d : Deduper K)
      → IsMirror d
      → ((insert k now d).1 ≡ not (contains (map key (fresh_suffix d.ttl now d.order)) k))
        × Holds (after_insert k now d.capacity d.ttl d.order) d.capacity d.ttl (insert k now d).0
  unfolding insert
  insert-Holds k now d h =
      record_seen-Holds k now d.capacity d.ttl _ (prune now d) (prune-Holds now d h.same)

  Distinct-after_insert :
      (k : K) (now c t : ℕ) (l : List (K × ℕ))
      → Distinct (map key l)
      → Distinct (map key (after_insert k now c t l))
  Distinct-after_insert k now c t l h =
      let live = fresh_suffix t now l in
      let kept = Distinct-fresh_suffix t now l h in
      elim (Bool-cases (contains (map key live) k)) [
        | inl old ↦ rw old kept
        | inr new ↦ rw new (
            Distinct-newest c (live ++ (k, now) ∷ [])
              (rw (map-key-append live k now) (Distinct-append (map key live) k kept new)))
      ]

  length-after_insert :
      (k : K) (now c t : ℕ) (l : List (K × ℕ))
      → length l ≤ c
      → length (after_insert k now c t l) ≤ c
  length-after_insert k now c t l h =
      let live = fresh_suffix t now l in
      ground (arith, length-fresh_suffix t now l, length-newest c (live ++ (k, now) ∷ []))

  -- `insert` keeps the set equal to the keys of the queue, without repetition, and within the
  -- capacity; the capacity and the time to live stay.
  pub insert-IsValid :
      (k : K) (now : ℕ) (d : Deduper K)
      → IsValid d
      → IsValid (insert k now d).0
        × ((insert k now d).0.capacity ≡ d.capacity)
        × ((insert k now d).0.ttl ≡ d.ttl)
  insert-IsValid k now d v =
      let h = (insert-Holds k now d v.mirror).1 in
      let l = after_insert k now d.capacity d.ttl d.order in
      let small : length d.order ≤ d.capacity =
        omega (arith, ap length v.mirror.same, length-map-key d.order, v.bounded) in
      (
        record {
          mirror = record {
            same = h.keys ∙ ap (map key) (sym h.queue);
            distinct =
                rw h.queue (Distinct-after_insert k now d.capacity d.ttl d.order v.mirror.distinct);
          };
          bounded = omega (
            arith,
            ap length h.keys,
            length-map-key l,
            h.cap,
            length-after_insert k now d.capacity d.ttl d.order small,
          );
        },
        h.cap,
        h.life,
      )
