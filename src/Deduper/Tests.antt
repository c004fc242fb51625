-- ===== src/Deduper/Tests.antt =====
-- Runs of the deduper on concrete keys, and the theorems at concrete inputs.
use rstrader.Base.{ℕ, ◌≡◌, refl, false, [], ◌∷◌, not, arith}
use rstrader.Base.Equality.{nat_eq}
use rstrader.Deduper.{
  Deduper, contains, add, remove, drop_expired, drop_oldest, prune_from, prune, enforce_from,
  enforce_capacity, record_seen, insert,
}
use rstrader.Deduper.Loops.{IsMirror, IsValid}
use rstrader.Deduper.Invariant.{insert-IsValid}
use rstrader.Deduper.Window.{seen_within, insert_first_seen, insert_all, insert_duplicate}

-- Two records, at instants 3 and 5, with room for two more and a life of ten.
abbrev two_keys : Deduper ℕ
two_keys = record {
  capacity = 3;
  ttl = 10;
  set = 7 ∷ 8 ∷ [];
  order = (7, 3) ∷ (8, 5) ∷ [];
  metrics = record { inserts = 2; hits = 0; evictions = 0; expired = 0 };
}

two_keys-IsMirror : IsMirror two_keys
unfolding contains
two_keys-IsMirror = record { same = refl; distinct = (refl, (refl, tt)) }

two_keys-IsValid : IsValid two_keys
two_keys-IsValid = record { mirror = two_keys-IsMirror; bounded = omega arith }

-- The first record expires, and the third and fourth key push out the second.
run_evicts : (insert_all ((1, 14) ∷ (2, 14) ∷ (3, 14) ∷ []) two_keys).set ≡ 1 ∷ 2 ∷ 3 ∷ []
unfolding insert_all insert record_seen prune prune_from enforce_capacity enforce_from drop_expired
    drop_oldest add remove contains
run_evicts = refl

insert-IsValid_example :
    IsValid (insert 7 4 two_keys).0
    × ((insert 7 4 two_keys).0.capacity ≡ 3)
    × ((insert 7 4 two_keys).0.ttl ≡ 10)
insert-IsValid_example = insert-IsValid 7 4 two_keys two_keys-IsValid

insert_first_seen_example :
    (insert 7 20 two_keys).1 ≡ not (seen_within {K = ℕ} 10 20 7 ((7, 3) ∷ (8, 5) ∷ []))
insert_first_seen_example = insert_first_seen 7 20 two_keys two_keys-IsMirror (omega arith)

insert_duplicate_runs :
    (insert 9 15 (insert_all ((7, 9) ∷ (4, 12) ∷ []) (insert 9 6 two_keys).0)).1 ≡ false
unfolding insert record_seen prune prune_from enforce_capacity enforce_from drop_expired drop_oldest
    add remove contains
insert_duplicate_runs =
    insert_duplicate 9 6 15 ((7, 9) ∷ (4, 12) ∷ []) two_keys two_keys-IsValid refl (omega arith)
      (omega arith) (omega arith)
