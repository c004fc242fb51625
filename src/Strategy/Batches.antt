-- ===== src/Strategy/Batches.antt =====
-- What every handler of a strategy keeps, the loop of src/strats/api.rs keeps.
use rstrader.Base.{false, if_both, List, [], ◌∷◌}
use rstrader.Strategy.{
  StrategyMessage, StrategyIo, Readings, Strategy, empty, disconnected, Batch, handle_msg,
  handle_all, update_if_scheduled, run_batches,
}

module _ {ℓ} {S : Type ℓ} (strategy : Strategy S) (P : S × StrategyIo → Type 0)
    (handle : (m : Readings × StrategyMessage) (st : S × StrategyIo)
      → P st
      → P (handle_msg strategy m st))
    (update : (r : Readings) (st : S × StrategyIo) → P st → P (strategy.update r st.0 st.1))
    (unscheduled : (s : S) (io : StrategyIo)
      → P (s, io)
      → P (s, record io { update_scheduled = false })) where
  handle_all-keeps :
      (ms : List (Readings × StrategyMessage)) (st : S × StrategyIo)
      → P st
      → P (handle_all strategy ms st)
  unfolding handle_all
  handle_all-keeps [] st p = p
  handle_all-keeps (m ∷ ms) st p = handle_all-keeps ms (handle_msg strategy m st) (handle m st p)

  update_if_scheduled-keeps :
      (r : Readings) (st : S × StrategyIo) → P st → P (update_if_scheduled strategy r st)
  unfolding update_if_scheduled
  update_if_scheduled-keeps r (s, io) p =
      if_both P io.update_scheduled
        (unscheduled (strategy.update r s io).0 (strategy.update r s io).1 (update r (s, io) p)) p

  pub run_batches-keeps :
      (bs : List Batch) (st : S × StrategyIo) → P st → P (run_batches strategy bs st)
  unfolding run_batches
  run_batches-keeps [] st p = p
  run_batches-keeps (b ∷ bs) st p =
      let handled = handle_all strategy b.others (handle_msg strategy b.first st) in
      let q = handle_all-keeps b.others (handle_msg strategy b.first st) (handle b.first st p) in
      elim b.drained
        as (λ d. P (elim d [
          | empty ↦ run_batches strategy bs (update_if_scheduled strategy b.at_update handled)
          | disconnected ↦ handled
        ])) [
          | empty ↦
              run_batches-keeps bs (update_if_scheduled strategy b.at_update handled)
                (update_if_scheduled-keeps b.at_update handled q)
          | disconnected ↦ q
        ]
