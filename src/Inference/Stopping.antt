-- ===== src/Inference/Stopping.antt =====
-- How the thread that handles requests comes to an end (elefant/policy_model/inference.py).
use mathlib.Core.Path.{subst⁻¹}
use p2p_rdt.Common.{◌≡◌, refl, ap, true, List, [], ◌∷◌, Option, none, some, inl, inr, Bool-cases}
use p2p_rdt.Inference.Base.{Inference}
use p2p_rdt.Inference.Requests.{
  Item, looping, waiting, stopped, holding, State, answer, finish, drain, settle, round, round_at,
  Step, put, set_text, shut_down, enter, time_out, take, take_none, drop_older, drop_last, act,
  leave,
}

module _ {S Frame Action : Type 0} (policy : Inference S Frame Action) where
  -- A step of the thread itself.
  abbrev pub Own : {s t : State S Frame Action} → Step policy s t → Type 0
  Own (put item e) = ⊥
  Own (set_text text e) = ⊥
  Own (shut_down e) = ⊥
  Own (enter at on e) = Unit
  Own (time_out at q e) = Unit
  Own (take item queue at q e) = Unit
  Own (take_none queue at q e) = Unit
  Own (drop_older item newer queue at q e) = Unit
  Own (drop_last item queue at q e) = Unit
  Own (act item at q e) = Unit
  Own (leave at off e) = Unit

  -- Steps of the thread alone: nothing is put on the queue, no text is set, and nobody shuts down.
  pub data OwnSteps (s : State S Frame Action) : State S Frame Action → Type 0 where
    rest : OwnSteps s s
    more :
        {t u : State S Frame Action}
        → OwnSteps s t
        → (step : Step policy t u) → Own step
        → OwnSteps s u

  OwnSteps-first :
      (s t u : State S Frame Action) (step : Step policy s t)
      → Own step
      → OwnSteps t u
      → OwnSteps s u
  OwnSteps-first s t u step own rest = more rest step own
  OwnSteps-first s t u step own (more {t = v} before last own') =
      more (OwnSteps-first s t v step own before) last own'

  -- The inner loop is made of steps.
  settle-OwnSteps :
      (queue : List (Option (Item Frame))) (s : State S Frame Action) (item : Item Frame)
      → OwnSteps
          (record s { place = holding item; queue = queue })
          (settle policy (record s { queue = queue }) item)
  unfolding settle drain finish answer
  settle-OwnSteps [] s item = more rest (act item refl refl refl) tt
  settle-OwnSteps (none ∷ queue) s item = more rest (drop_last item queue refl refl refl) tt
  settle-OwnSteps (some newer ∷ queue) s item =
      OwnSteps-first (record s { place = holding item; queue = some newer ∷ queue })
        (record s { place = holding newer; queue = queue }) _
        (drop_older item newer queue refl refl refl) tt (settle-OwnSteps queue s newer)

  entered-OwnSteps :
      (queue : List (Option (Item Frame))) (s : State S Frame Action)
      → s.queue ≡ queue
      → s.place ≡ looping
      → OwnSteps (record s { place = waiting }) (round_at policy s true queue)
  unfolding round_at finish
  entered-OwnSteps [] s q at =
      more rest (time_out refl q (ap (λ place. record s { place = place }) at)) tt
  entered-OwnSteps (none ∷ queue) s q at = more rest (take_none queue refl q refl) tt
  entered-OwnSteps (some item ∷ queue) s q at =
      OwnSteps-first (record s { place = waiting })
        (record s { place = holding item; queue = queue }) _ (take item queue refl q refl) tt
        (settle-OwnSteps queue s item)

  -- A round of the loop, run without anything else put on the queue, is a sequence of steps.
  pub round-OwnSteps : (s : State S Frame Action) → s.place ≡ looping → OwnSteps s (round policy s)
  unfolding round round_at
  round-OwnSteps s at = elim (Bool-cases s.running) [
    | inl on ↦ subst⁻¹ (OwnSteps s) (ap (λ b. round_at policy s b s.queue) on) (
        OwnSteps-first s (record s { place = waiting }) _ (enter at on refl) tt
          (entered-OwnSteps s.queue s refl at))
    | inr off ↦
        let left : round policy s ≡ record s { place = stopped } =
          ap (λ b. round_at policy s b s.queue) off in
        subst⁻¹ (OwnSteps s) left (more rest (leave at off refl) tt)
  ]
