-- ===== src/Lerobot/Usable.antt =====
-- The segments that a dataset offers have all their latent files
-- (elefant/data/lerobot_latent_dataset.py).
use p2p_rdt.Common.{
  ℕ, ◌≡◌, refl, sym, ◌∙◌, Bool, true, false, String, List, [], ◌∷◌, ◌++◌, All, All-append, arith,
  if◌then◌else◌, inl, inr, Bool-cases, ap,
}
use p2p_rdt.Common.Results.{Result, ok, raise, ◌>>=◌, >>=_ok, IsOk}
use p2p_rdt.Lerobot.Meta.{
  Segment, Episode, Meta, Latents, get_episode_chunk, has_all, check_meta, parse_segments,
  parse_meta,
}

no_confusion : false ≡ true → ⊥
no_confusion e = cc

ok_inj : {A : Type 0} {a b : A} → ok a ≡ ok b → a ≡ b
ok_inj {A} {a} h = ap (λ (r : Result A). elim r [ ok x ↦ x | raise e ↦ a ]) h

module _ (latents : Latents) (keys : List String) (chunks : List (ℕ × ℕ)) where
  -- The episode has a chunk, with a file of each key for the segment.
  abbrev pub IsUsable : Meta → Type 0
  IsUsable m =
      (chunk : ℕ) × (get_episode_chunk chunks m.episode_index ≡ ok chunk)
      × All (λ key. latents chunk key m.episode_index m.start_frame m.end_frame ≡ true) keys

  has_all_lem :
      (ks : List String) (chunk start end episode : ℕ)
      → has_all latents ks chunk start end episode ≡ true
      → All (λ key. latents chunk key episode start end ≡ true) ks
  unfolding has_all
  has_all_lem [] chunk start end episode h = tt
  has_all_lem (key ∷ ks) chunk start end episode h =
      elim (Bool-cases (latents chunk key episode start end)) [
        | inl there ↦ (there, has_all_lem ks chunk start end episode (rw there at h))
        | inr missing ↦ absurd (no_confusion (rw missing at h))
      ]

  check_meta_lem :
      (start end episode : ℕ)
      → check_meta latents keys chunks start end episode ≡ ok true
      → (chunk : ℕ) × (get_episode_chunk chunks episode ≡ ok chunk)
        × All (λ key. latents chunk key episode start end ≡ true) keys
  unfolding check_meta
  check_meta_lem start end episode h =
      let (chunk, found, all_there) =
        >>=_ok (get_episode_chunk chunks episode)
          (λ c. ok (has_all latents keys c start end episode)) h in
      (chunk, found, has_all_lem keys chunk start end episode (ok_inj all_there))

  keep : Bool → Meta → List Meta → List Meta
  keep status m out = if status then m ∷ out else out

  keep_lem :
      (status : Bool) (m : Meta) (out : List Meta)
      → (status ≡ true → IsUsable m)
      → All IsUsable out
      → All IsUsable (keep status m out)
  unfolding keep
  keep_lem true m out h all = (h refl, all)
  keep_lem false m out h all = all

  segments_lem :
      (e : Episode) (segments : List Segment) {out : List Meta}
      → parse_segments latents keys chunks e segments ≡ ok out
      → All IsUsable out
  unfolding parse_segments keep
  segments_lem e [] h = rw (sym (ok_inj h)) tt
  segments_lem e (a ∷ segments) h =
      let m : Meta = record {
        episode_index = e.episode_index;
        tasks = e.tasks;
        start_frame = a.start_frame;
        end_frame = a.end_frame;
      } in
      let (status, checked, next) =
        >>=_ok (check_meta latents keys chunks a.start_frame a.end_frame e.episode_index)
          (λ status.
            parse_segments latents keys chunks e segments >>= λ out. ok (keep status m out))
          h in
      let (out, rest, kept) =
        >>=_ok (parse_segments latents keys chunks e segments) (λ out. ok (keep status m out))
          next in
      rw (sym (ok_inj kept)) (
        keep_lem status m out
          (λ z. check_meta_lem a.start_frame a.end_frame e.episode_index (checked ∙ ap ok z))
          (segments_lem e segments rest))

  -- If the metadata parses, every segment that the dataset offers has a latent file of each key, in the
  -- chunk of its episode.
  pub parse_meta-IsUsable :
      (episodes : List Episode) {out : List Meta}
      → parse_meta latents keys chunks episodes ≡ ok out
      → All IsUsable out
  unfolding parse_meta
  parse_meta-IsUsable [] h = rw (sym (ok_inj h)) tt
  parse_meta-IsUsable (e ∷ episodes) h =
      let (first, parsed, next) =
        >>=_ok (parse_segments latents keys chunks e e.action_config)
          (λ first. parse_meta latents keys chunks episodes >>= λ rest. ok (first ++ rest)) h in
      let (rest, others, whole) =
        >>=_ok (parse_meta latents keys chunks episodes) (λ rest. ok (first ++ rest)) next in
      rw (sym (ok_inj whole)) (
        All-append IsUsable first rest (segments_lem e e.action_config parsed)
          (parse_meta-IsUsable episodes others))

  segments_total :
      (e : Episode) (segments : List Segment)
      → IsOk (get_episode_chunk chunks e.episode_index)
      → IsOk (parse_segments latents keys chunks e segments)
  unfolding parse_segments check_meta
  segments_total e [] known = tt
  segments_total e (a ∷ segments) known = ground (arith, segments_total e segments known)

  -- If every episode has a chunk, the metadata parses.
  pub parse_meta_total :
      (episodes : List Episode)
      → All (λ e. IsOk (get_episode_chunk chunks e.episode_index)) episodes
      → IsOk (parse_meta latents keys chunks episodes)
  unfolding parse_meta
  parse_meta_total [] known = tt
  parse_meta_total (e ∷ episodes) known =
      ground (arith, segments_total e e.action_config known.0, parse_meta_total episodes known.1)
