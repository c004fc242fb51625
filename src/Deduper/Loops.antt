-- ===== src/Deduper/Loops.antt =====
-- The two loops of src/md/deduper.rs, and what they leave of the queue.
use rstrader.Base.{
  ℕ, ◌-◌, ◌≤◌, suc, ◌≡◌, refl, sym, ◌∙◌, ap, true, false, List, [], ◌∷◌, ◌++◌, map, length, ltb,
  if◌then◌else◌, arith, Bool-cases, inl, inr,
}
use mathlib.Core.Path.{ap₂}
use rstrader.Base.Equality.{Eq}
use rstrader.Deduper.{
  Deduper, contains, remove, drop_expired, drop_oldest, prune_from, enforce_from,
}

abbrev pub key {ℓ} : {K : Type ℓ} → K × ℕ → K
key (k, _) = k

module _ {ℓ} {K : Type ℓ} ⦃e : Eq K⦄ where
  -- No key twice.
  abbrev pub Distinct : List K → Type 0
  Distinct [] = Unit
  Distinct (x ∷ xs) = (contains xs x ≡ false) × Distinct xs

  pub record IsMirror (d : Deduper K) : Type ℓ where
    pub same : d.set ≡ map key d.order
    pub distinct : Distinct (map key d.order)

  pub record IsValid (d : Deduper K) : Type ℓ where
    pub mirror : IsMirror d
    pub bounded : length d.set ≤ d.capacity

  beq_self : (k : K) → e.beq k k ≡ true
  beq_self k = (e.beq_iff k k).1 refl

  remove-head : (k : K) (xs : List K) → remove (k ∷ xs) k ≡ (xs, true)
  unfolding remove
  remove-head k xs = rw (beq_self k)

  contains-append :
      (xs : List K) (k j : K)
      → contains (xs ++ k ∷ []) j ≡ (if e.beq k j then true else contains xs j)
  unfolding contains
  contains-append [] k j = refl
  contains-append (x ∷ xs) k j = ground (arith, contains-append xs k j)

  pub Distinct-append :
      (xs : List K) (k : K) → Distinct xs → contains xs k ≡ false → Distinct (xs ++ k ∷ [])
  unfolding contains
  Distinct-append [] k h n = (refl, tt)
  Distinct-append (x ∷ xs) k h n =
      ground (arith, contains-append xs k x, Distinct-append xs k h.1, e.beq_iff k x, beq_self k)

  -- What the two loops leave of the queue.
  abbrev pub fresh_suffix : ℕ → ℕ → List (K × ℕ) → List (K × ℕ)
  fresh_suffix ttl now [] = []
  fresh_suffix ttl now ((k, ts) ∷ rest) =
      if ltb ttl (now - ts) then fresh_suffix ttl now rest else (k, ts) ∷ rest

  abbrev pub newest : ℕ → List (K × ℕ) → List (K × ℕ)
  newest cap [] = []
  newest cap (x ∷ rest) = if ltb cap (suc (length rest)) then newest cap rest else x ∷ rest

  -- A state whose queue is `l`, mirrored by its set, under the given parameters.
  pub record Holds (l : List (K × ℕ)) (capacity ttl : ℕ) (d : Deduper K) : Type ℓ where
    pub queue : d.order ≡ l
    pub keys : d.set ≡ map key l
    pub cap : d.capacity ≡ capacity
    pub life : d.ttl ≡ ttl

  drop_expired-Holds :
      (k : K) (ts : ℕ) (rest : List (K × ℕ)) (c t : ℕ) (d : Deduper K)
      → Holds ((k, ts) ∷ rest) c t d
      → Holds rest c t (drop_expired d k rest)
  unfolding drop_expired
  drop_expired-Holds k ts rest c t d h = record {
    queue = refl;
    keys = ap (λ p. p.0) (ap (λ s. remove s k) h.keys ∙ remove-head k (map key rest));
    cap = h.cap;
    life = h.life;
  }

  drop_oldest-Holds :
      (k : K) (ts : ℕ) (rest : List (K × ℕ)) (c t : ℕ) (d : Deduper K)
      → Holds ((k, ts) ∷ rest) c t d
      → Holds rest c t (drop_oldest d k rest)
  unfolding drop_oldest
  drop_oldest-Holds k ts rest c t d h = record {
    queue = refl;
    keys = ap (λ p. p.0) (ap (λ s. remove s k) h.keys ∙ remove-head k (map key rest));
    cap = h.cap;
    life = h.life;
  }

  pub prune_from-Holds :
      (now c t : ℕ) (l : List (K × ℕ)) (d : Deduper K)
      → Holds l c t d
      → Holds (fresh_suffix t now l) c t (prune_from now l d)
  unfolding prune_from
  prune_from-Holds now c t [] d h = h
  prune_from-Holds now c t ((k, ts) ∷ rest) d h =
      let same = ap (λ (x : ℕ). ltb x (now - ts)) h.life in
      elim (Bool-cases (ltb d.ttl (now - ts))) [
        | inl old ↦
            rw (old, sym same ∙ old)
              (prune_from-Holds now c t rest (drop_expired d k rest)
                (drop_expired-Holds k ts rest c t d h))
        | inr young ↦ rw (young, sym same ∙ young) h
      ]

  pub length-map-key : (l : List (K × ℕ)) → length (map key l) ≡ length l
  length-map-key [] = refl
  length-map-key (x ∷ l) = ap suc (length-map-key l)

  pub enforce_from-Holds :
      (c t : ℕ) (l : List (K × ℕ)) (d : Deduper K)
      → Holds l c t d
      → Holds (newest c l) c t (enforce_from l d)
  unfolding enforce_from
  enforce_from-Holds c t [] d h = h
  enforce_from-Holds c t ((k, ts) ∷ rest) d h =
      let size : length d.set ≡ suc (length rest) =
        ap length h.keys ∙ ap suc (length-map-key rest) in
      let same = ap₂ ltb h.cap size in
      elim (Bool-cases (ltb d.capacity (length d.set))) [
        | inl over ↦
            rw (over, sym same ∙ over)
              (enforce_from-Holds c t rest (drop_oldest d k rest)
                (drop_oldest-Holds k ts rest c t d h))
        | inr within ↦ rw (within, sym same ∙ within) h
      ]

  pub Distinct-fresh_suffix :
      (t now : ℕ) (l : List (K × ℕ))
      → Distinct (map key l)
      → Distinct (map key (fresh_suffix t now l))
  Distinct-fresh_suffix t now [] h = h
  Distinct-fresh_suffix t now ((k, ts) ∷ rest) h =
      ground (arith, Distinct-fresh_suffix t now rest h.1)

  pub Distinct-newest :
      (c : ℕ) (l : List (K × ℕ)) → Distinct (map key l) → Distinct (map key (newest c l))
  Distinct-newest c [] h = h
  Distinct-newest c (x ∷ rest) h = ground (arith, Distinct-newest c rest h.1)

  pub length-newest : (c : ℕ) (l : List (K × ℕ)) → length (newest c l) ≤ c
  length-newest c [] = omega arith
  length-newest c (x ∷ rest) = ground (arith, length-newest c rest)

  pub length-fresh_suffix :
      (t now : ℕ) (l : List (K × ℕ)) → length (fresh_suffix t now l) ≤ length l
  length-fresh_suffix t now [] = omega arith
  length-fresh_suffix t now (x ∷ rest) = ground (arith, length-fresh_suffix t now rest)
