-- ===== src/Deduper.antt =====
-- src/md/deduper.rs: first-seen filter with a size bound and a time to live. Instants are
-- nanosecond counts; the hash set is a list whose order nothing observes.
pub mod Loops
pub mod Invariant
pub mod Window
mod Tests
use rstrader.Base.{
  ℕ, ◌-◌, ◌+◌, Bool, true, false, List, [], ◌∷◌, ◌++◌, length, ltb, if◌then◌else◌, map,
}
use rstrader.Base.Word.{inc64}
use rstrader.Base.Equality.{Eq}

pub record DeduperMetrics : Type 0 where
  pub inserts : ℕ
  pub hits : ℕ
  pub evictions : ℕ
  pub expired : ℕ

pub record Deduper {ℓ} (K : Type ℓ) : Type ℓ where
  pub capacity : ℕ
  pub ttl : ℕ
  pub set : List K
  pub order : List (K × ℕ)
  pub metrics : DeduperMetrics

module _ {ℓ} {K : Type ℓ} where
  pub new : ℕ → ℕ → Deduper K
  new capacity ttl = record {
    capacity = capacity;
    ttl = ttl;
    set = [];
    order = [];
    metrics = record { inserts = 0; hits = 0; evictions = 0; expired = 0 };
  }

  pub len : Deduper K → ℕ
  len d = length d.set

  pub is_empty : Deduper K → Bool
  is_empty d = elim d.set [ [] ↦ true | _ ∷ _ ↦ false ]

-- `HashSet::contains`, `insert` and `remove`.
module _ {ℓ} {K : Type ℓ} ⦃e : Eq K⦄ where
  pub contains : List K → K → Bool
  contains [] k = false
  contains (x ∷ xs) k = if e.beq x k then true else contains xs k

  pub add : List K → K → List K × Bool
  unfolding contains
  add s k = if contains s k then (s, false) else (s ++ k ∷ [], true)

  pub remove : List K → K → List K × Bool
  remove [] k = ([], false)
  remove (x ∷ xs) k =
      let (rest, found) = remove xs k in if e.beq x k then (xs, true) else (x ∷ rest, found)

  -- The body of `prune`'s loop on one expired entry, and of `enforce_capacity`'s.
  pub drop_expired : Deduper K → K → List (K × ℕ) → Deduper K
  drop_expired d k rest =
      let (s, found) = remove d.set k in
      record d {
        set = s;
        order = rest;
        metrics = if found then record m { expired = inc64 m.expired } else m;
      }
    where
      m : DeduperMetrics
      m = d.metrics

  pub drop_oldest : Deduper K → K → List (K × ℕ) → Deduper K
  drop_oldest d k rest =
      let (s, found) = remove d.set k in
      record d {
        set = s;
        order = rest;
        metrics = if found then record m { evictions = inc64 m.evictions } else m;
      }
    where
      m : DeduperMetrics
      m = d.metrics

  -- The loop of `prune`, over the entries of `order` that are left.
  pub prune_from : ℕ → List (K × ℕ) → Deduper K → Deduper K
  prune_from now [] d = d
  prune_from now ((k, ts) ∷ rest) d =
      let next = prune_from now rest (drop_expired d k rest) in
      if ltb d.ttl (now - ts) then next else d

  pub prune : ℕ → Deduper K → Deduper K
  prune now d = prune_from now d.order d

  pub enforce_from : List (K × ℕ) → Deduper K → Deduper K
  enforce_from [] d = d
  enforce_from ((k, ts) ∷ rest) d =
      let next = enforce_from rest (drop_oldest d k rest) in
      if ltb d.capacity (length d.set) then next else d

  pub enforce_capacity : Deduper K → Deduper K
  enforce_capacity d = enforce_from d.order d

  -- `insert` on the pruned state: the test of `set.insert` and the two branches.
  pub record_seen : K → ℕ → Deduper K → Deduper K × Bool
  record_seen k now d =
      let (s, fresh) = add d.set k in
      if fresh
      then (
        enforce_capacity (record d {
          set = s;
          order = d.order ++ (k, now) ∷ [];
          metrics = record m { inserts = inc64 m.inserts };
        }),
        true,
      )
      else (record d { set = s; metrics = record m { hits = inc64 m.hits } }, false)
    where
      m : DeduperMetrics
      m = d.metrics

  pub insert : K → ℕ → Deduper K → Deduper K × Bool
  insert k now d = record_seen k now (prune now d)
