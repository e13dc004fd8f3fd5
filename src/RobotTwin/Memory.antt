-- ===== src/RobotTwin/Memory.antt =====
-- What happens when the network runs out of memory (elefant/evaluation/robotwin/server.py).
use p2p_rdt.Common.{◌≡◌, ◌≢◌, ◌⊎◌, refl, Bool, true, false, List, inl, inr}
use p2p_rdt.Common.Results.{Error, Result, Result-cases, ok, raise, out_of_memory_error}
use p2p_rdt.RobotTwin.Floats.{Floats}
use p2p_rdt.RobotTwin.Sequence.{Config}
use p2p_rdt.RobotTwin.Step.{ask_network}

module _ {F Frame Text : Type 0} (fl : Floats F) (c : Config F Frame Text) where
  -- The three outcomes: the first answer, that of the second try, or an exception.
  abbrev pub Asked : Bool → Bool → (Bool → Result (List (List F))) → Type 0
  Asked is_cuda compile ask =
      ((preds : List (List F)) × (ask compile ≡ ok preds)
        × (ask_network fl c is_cuda compile ask ≡ ok (preds, compile)))
      ⊎ (((preds : List (List F)) × (compile ≡ true)
            × (is_cuda ≡ true)
            × (ask true ≡ raise out_of_memory_error)
            × (ask false ≡ ok preds)
            × (ask_network fl c is_cuda compile ask ≡ ok (preds, false)))
          ⊎ ((e : Error) × (ask_network fl c is_cuda compile ask ≡ raise e)
              × (((ask compile ≡ raise e)
                    × ((e ≢ out_of_memory_error) ⊎ ((compile ≡ false) ⊎ (is_cuda ≡ false))))
                  ⊎ ((compile ≡ true)
                      × (is_cuda ≡ true)
                      × (ask true ≡ raise out_of_memory_error)
                      × (ask false ≡ raise e)))))

  -- Any other exception is passed on.
  passes :
      (is_cuda compile : Bool) (ask : Bool → Result (List (List F))) (e : Error)
      → ask compile ≡ raise e
      → (e ≡ out_of_memory_error)
        ⊎ ((e ≢ out_of_memory_error) × (ask_network fl c is_cuda compile ask ≡ raise e))
  unfolding ask_network
  passes is_cuda compile ask out_of_memory_error h = inl refl
  passes is_cuda compile ask e h = inr ((λ z. cc), rw (ask_network, h) refl)

  -- The ways in which the network is asked: its first answer is taken, and compilation stays as it was; or a
  -- compiled network on a GPU runs out of memory, is asked once more without compilation,
  -- answers, and stays uncompiled, or the exception of this second try is passed on; or the exception of the first
  -- try is passed on, which then is another one than running out of memory, or the network is not compiled, or not on a GPU.
  pub ask_network_cases :
      (is_cuda compile : Bool) (ask : Bool → Result (List (List F))) → Asked is_cuda compile ask
  unfolding ask_network
  ask_network_cases is_cuda compile ask = elim (Result-cases (ask compile)) [
    | inl (preds, h) ↦ inl (preds, h, rw (ask_network, h) refl)
    | inr (e, h) ↦ elim (passes is_cuda compile ask e h) [
      | inr passed ↦ inr (inr (e, passed.1, inl (h, inl passed.0)))
      | inl oom ↦ out_of_memory is_cuda compile (rw (← oom) h)
    ]
  ]
    where
      out_of_memory :
          (cuda compiled : Bool)
          → ask compiled ≡ raise out_of_memory_error
          → Asked cuda compiled ask
      out_of_memory cuda false oom =
          inr (inr (out_of_memory_error, rw (ask_network, oom) refl, inl (oom, inr (inl refl))))
      out_of_memory false true oom =
          inr (inr (out_of_memory_error, rw (ask_network, oom) refl, inl (oom, inr (inr refl))))
      out_of_memory true true oom = elim (Result-cases (ask false)) [
        | inl (preds, h) ↦ inr (inl (preds, refl, refl, oom, h, rw (ask_network, oom, h) refl))
        | inr (e, h) ↦ inr (inr (e, rw (ask_network, oom, h) refl, inr (refl, refl, oom, h)))
      ]
