-- ===== src/NaiveMm/Update/Vacancy.antt =====
-- When a decision pass of src/strats/naive_mm/strategy.rs finds a slot empty.
use rstrader.Base.{◌≡◌, sym, ap, ◌∙◌, ◌⊎◌, inl, inr, true, false, Option, none, some, arith}
use rstrader.Base.Int.{ℤ, pos, ltb_ℤ}
use rstrader.Base.Word.{sub_i64}
use rstrader.NaiveMm.{LiveOrder, Slot}
use rstrader.NaiveMm.Update.{expire}

-- A cancel was asked for more than 0.8 s ago, and is still without an answer.
abbrev IsPast : ℤ → Option ℤ → Type 0
IsPast now none = ⊥
IsPast now (some t) = ltb_ℤ (pos 800_000) (sub_i64 now t) ≡ true

abbrev pub IsLate : ℤ → Slot → Type 0
IsLate now s = (s.has_pending_cancel ≡ true) × IsPast now s.last_cancel_req_ts_us

-- There is no order, or one whose cancel is late.
abbrev pub IsVacant : ℤ → Slot → Type 0
IsVacant now s = (s.order ≡ none) ⊎ IsLate now s

-- Giving up late cancels leaves a slot as it is, or empties a late one.
pub expire_cases :
    (now : ℤ) (s : Slot) → (expire now s ≡ s) ⊎ (IsLate now s × ((expire now s).order ≡ none))
unfolding expire
expire_cases now s = ground arith

pub expire-IsVacant : (now : ℤ) (s : Slot) → (expire now s).order ≡ none → IsVacant now s
expire-IsVacant now s h = elim (expire_cases now s) [ inl e ↦ inl (rw e at h) | inr l ↦ inr l.0 ]

expire_id :
    (now : ℤ) (s : Slot) (lo : LiveOrder) → (expire now s).order ≡ some lo → expire now s ≡ s
expire_id now s lo h = elim (expire_cases now s) [ inl e ↦ e | inr l ↦ cc ]

-- What is left of an order and its flag was there before.
pub expire-order :
    (now : ℤ) (s : Slot) (lo : LiveOrder) → (expire now s).order ≡ some lo → s.order ≡ some lo
expire-order now s lo h = ap (λ (x : Slot). x.order) (sym (expire_id now s lo h)) ∙ h

pub expire-has_pending_cancel :
    (now : ℤ) (s : Slot) (lo : LiveOrder)
    → (expire now s).order ≡ some lo
    → (expire now s).has_pending_cancel ≡ false
    → s.has_pending_cancel ≡ false
expire-has_pending_cancel now s lo h f =
    ap (λ (x : Slot). x.has_pending_cancel) (sym (expire_id now s lo h)) ∙ f
