-- ===== src/Lerobot/Meta.antt =====
-- `_get_episode_chunk`, `_check_meta` and `parse_meta` (elefant/data/lerobot_latent_dataset.py).
-- Which latent files exist is a parameter.
use p2p_rdt.Common.{ℕ, Bool, true, false, String, List, [], ◌∷◌, ◌++◌, ◌==◌, if◌then◌else◌}
use p2p_rdt.Common.Results.{Result, ok, raise, ◌>>=◌, key_error}

-- One entry of an episode's `action_config`.
pub record Segment : Type 0 where
  pub start_frame : ℕ
  pub end_frame : ℕ

pub record Episode : Type 0 where
  pub episode_index : ℕ
  pub tasks : List String
  pub action_config : List Segment

-- `cur_meta`
pub record Meta : Type 0 where
  pub episode_index : ℕ
  pub tasks : List String
  pub start_frame : ℕ
  pub end_frame : ℕ

-- Whether the latent file exists: by chunk, key, episode, first and last frame.
abbrev pub Latents : Type 0
Latents = ℕ → String → ℕ → ℕ → ℕ → Bool

unfoldable pub get_episode_chunk : List (ℕ × ℕ) → ℕ → Result ℕ
get_episode_chunk [] episode = raise key_error
get_episode_chunk ((e, chunk) ∷ chunks) episode =
    if e == episode then ok chunk else get_episode_chunk chunks episode

unfoldable pub has_all : Latents → List String → ℕ → ℕ → ℕ → ℕ → Bool
has_all latents [] chunk start end episode = true
has_all latents (key ∷ keys) chunk start end episode =
    if latents chunk key episode start end
    then has_all latents keys chunk start end episode
    else false

module _ (latents : Latents) (used_video_keys : List String) (chunks : List (ℕ × ℕ)) where
  unfoldable pub check_meta : ℕ → ℕ → ℕ → Result Bool
  unfolding get_episode_chunk has_all
  check_meta start_frame end_frame episode = do
    chunk ← get_episode_chunk chunks episode
    ok (has_all latents used_video_keys chunk start_frame end_frame episode)

  -- The inner loop, over the segments of an episode.
  unfoldable pub parse_segments : Episode → List Segment → Result (List Meta)
  unfolding check_meta
  parse_segments e [] = ok []
  parse_segments e (a ∷ segments) = do
    let cur_meta : Meta = record {
      episode_index = e.episode_index;
      tasks = e.tasks;
      start_frame = a.start_frame;
      end_frame = a.end_frame;
    }
    status ← check_meta a.start_frame a.end_frame e.episode_index
    out ← parse_segments e segments
    ok (if status then cur_meta ∷ out else out)

  unfoldable pub parse_meta : List Episode → Result (List Meta)
  unfolding parse_segments
  parse_meta [] = ok []
  parse_meta (e ∷ episodes) = do
    first ← parse_segments e e.action_config
    rest ← parse_meta episodes
    ok (first ++ rest)
