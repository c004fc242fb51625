-- ===== src/Okx/Registry.antt =====
-- Which instruments of src/exchanges/okx.rs a registry knows.
use rstrader.Base.{
  ◌≡◌, refl, sym, ◌∙◌, ◌↔◌, ◌⊎◌, inl, inr, Bool, true, false, Option, some, List, [], ◌∷◌,
  if◌then◌else◌, Bool-cases, if_split, arith,
}
use rstrader.Base.Float.{F64}
use rstrader.Base.Bytes.{Bytes, ascii, bytes_eq, bytes_eq_iff}
use rstrader.Errors.{Result, ok, err, ◌>>=◌}
use rstrader.Okx.{
  OkxInstrumentInfo, InstrumentMetadata, from_okx_info, InstrumentRegistry, insert, find, contains,
  cache_instruments, answer, initialize_with_instruments,
}

same_if {ℓ} :
    {A : Type ℓ} (b : Bool) (x y z : A)
    → (if b then x else z) ≡ (if b then x else if b then y else z)
same_if true x y z = refl
same_if false x y z = refl

swap_if {ℓ} :
    {A : Type ℓ} (a b : Bool) (x y z : A)
    → ¬ ((a ≡ true) × (b ≡ true))
    → (if a then x else if b then y else z) ≡ (if b then y else if a then x else z)
swap_if true true x y z h = absurd (h (refl, refl))
swap_if true false x y z h = refl
swap_if false b x y z h = refl

differ_absurd : {b : Bool} → b ≡ true → b ≡ false → ⊥
differ_absurd p q = cc

differ :
    (j id k : Bytes) → bytes_eq j id ≡ false → ¬ ((bytes_eq j k ≡ true) × (bytes_eq id k ≡ true))
differ j id k e (h, l) =
    let j_id = (bytes_eq_iff j k).0 h ∙ sym ((bytes_eq_iff id k).0 l) in
    differ_absurd ((bytes_eq_iff j id).1 j_id) e

find-insert :
    (id k : Bytes) (m : InstrumentMetadata) (r : InstrumentRegistry)
    → find k (insert id m r) ≡ (if bytes_eq id k then some m else find k r)
unfolding find insert
find-insert id k m [] = refl
find-insert id k m ((j, n) ∷ r) = elim (Bool-cases (bytes_eq j id)) [
  | inl e ↦ rw (e, (bytes_eq_iff j id).0 e) (same_if (bytes_eq id k) (some m) (some n) (find k r))
  | inr e ↦
      rw (e, find-insert id k m r)
        (swap_if (bytes_eq j k) (bytes_eq id k) (some n) (some m) (find k r) (differ j id k e))
]

-- A live instrument of this id stands in the answer.
abbrev pub IsListed : Bytes → List OkxInstrumentInfo → Type 0
IsListed id [] = ⊥
IsListed id (info ∷ infos) = ((info.state ≡ ascii "live") × (info.inst_id ≡ id)) ⊎ IsListed id infos

contains-insert :
    (id k : Bytes) (m : InstrumentMetadata) (r : InstrumentRegistry)
    → (contains (insert k m r) id ≡ true) ↔ ((k ≡ id) ⊎ (contains r id ≡ true))
unfolding contains
contains-insert id k m r = rw (contains, find-insert k id m r) (ground (arith, bytes_eq_iff k id))

-- What the loop leaves of the id, where it ends.
abbrev Holds :
    Bytes → List OkxInstrumentInfo → InstrumentRegistry → Result InstrumentRegistry → Type 0
Holds id infos cache (err e) = Unit
Holds id infos cache (ok r) =
    (contains r id ≡ true) ↔ (IsListed id infos ⊎ (contains cache id ≡ true))

Holds-live :
    (id : Bytes) (info : OkxInstrumentInfo) (infos : List OkxInstrumentInfo)
    (m : InstrumentMetadata) (cache : InstrumentRegistry) (r : Result InstrumentRegistry)
    → info.state ≡ ascii "live"
    → Holds id infos (insert info.inst_id m cache) r
    → Holds id (info ∷ infos) cache r
Holds-live id info infos m cache (err e) l h = tt
Holds-live id info infos m cache (ok r) l h =
    ground (arith, l, h, contains-insert id info.inst_id m cache)

Holds-dead :
    (id : Bytes) (info : OkxInstrumentInfo) (infos : List OkxInstrumentInfo)
    (cache : InstrumentRegistry) (r : Result InstrumentRegistry)
    → ¬ (info.state ≡ ascii "live")
    → Holds id infos cache r
    → Holds id (info ∷ infos) cache r
Holds-dead id info infos cache (err e) l h = tt
Holds-dead id info infos cache (ok r) l h = ground (arith, l, h)

cache_instruments-Holds :
    (parse_f64 : Bytes → Option F64) (id : Bytes) (infos : List OkxInstrumentInfo)
    (cache : InstrumentRegistry)
    → Holds id infos cache (cache_instruments parse_f64 infos cache)
unfolding cache_instruments
cache_instruments-Holds parse_f64 id [] cache = ground arith
cache_instruments-Holds parse_f64 id (info ∷ infos) cache =
    let P = Holds id (info ∷ infos) cache in
    let later = cache_instruments parse_f64 infos in
    let live = bytes_eq_iff info.state (ascii "live") in
    if_split P (bytes_eq info.state (ascii "live"))
      (λ e.
        elim (from_okx_info parse_f64 info)
          as (λ m. P (m >>= λ m. later (insert info.inst_id m cache))) [
            | err x ↦ tt
            | ok m ↦
                Holds-live id info infos m cache (later (insert info.inst_id m cache)) (live.0 e)
                  (cache_instruments-Holds parse_f64 id infos (insert info.inst_id m cache))
          ])
      (λ e.
        Holds-dead id info infos cache (later cache) (λ l. differ_absurd (live.1 l) e)
          (cache_instruments-Holds parse_f64 id infos cache))

initialize_with_instruments-Holds :
    (parse_f64 : Bytes → Option F64) (id : Bytes) (infos : List OkxInstrumentInfo)
    → Holds id infos [] (initialize_with_instruments parse_f64 (answer (ascii "0") infos))
unfolding initialize_with_instruments bytes_eq
initialize_with_instruments-Holds parse_f64 id infos = cache_instruments-Holds parse_f64 id infos []

-- The registry that the exchange's answer gives contains exactly the ids of its live instruments.
pub initialize_with_instruments_iff :
    (parse_f64 : Bytes → Option F64) (infos : List OkxInstrumentInfo) (r : InstrumentRegistry)
    (id : Bytes)
    → initialize_with_instruments parse_f64 (answer (ascii "0") infos) ≡ ok r
    → (contains r id ≡ true) ↔ IsListed id infos
unfolding contains find
initialize_with_instruments_iff parse_f64 infos r id e =
    let h : Holds id infos [] (ok r) =
      rw e at (initialize_with_instruments-Holds parse_f64 id infos) in
    ground (arith, h)
