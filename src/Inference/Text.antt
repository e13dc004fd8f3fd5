-- ===== src/Inference/Text.antt =====
-- The text of an inference step (elefant/policy_model/inference.py). The tokenizer is a parameter.
use p2p_rdt.Common.{ℕ, ◌==◌, String, Option, none, some, List, length}
use p2p_rdt.Common.Results.{Result, ok, ◌>>◌, ensure, assertion_error}

-- A tokenizer, with the sizes of its embeddings and the tensors that it and torch make: their
-- shapes, the tensor without its first two dimensions, and zeros of two dimensions.
pub record Tokenizer (Tensor : Type 0) : Type 0 where
  pub get_n_text_tokens : ℕ
  pub get_text_embed_dim : ℕ
  pub embed : String → Tensor

pub record Torch (Tensor : Type 0) : Type 0 where
  pub shape : Tensor → List ℕ
  pub squeeze : Tensor → Tensor
  pub zeros : ℕ → ℕ → Tensor

module _ {Tensor : Type 0} (torch : Torch Tensor) where
  unfoldable pub build_zero_text_tokens_embed : Option (Tokenizer Tensor) → ℕ → Tensor
  build_zero_text_tokens_embed none text_embedding_dim = torch.zeros 1 text_embedding_dim
  build_zero_text_tokens_embed (some model) text_embedding_dim =
      torch.zeros model.get_n_text_tokens model.get_text_embed_dim

  unfoldable pub encode_text_tokens_for_inference :
      Option (Tokenizer Tensor) → Option String → ℕ → Result Tensor
  unfolding build_zero_text_tokens_embed
  encode_text_tokens_for_inference none text dim = ok (build_zero_text_tokens_embed none dim)
  encode_text_tokens_for_inference (some model) none dim =
      ok (build_zero_text_tokens_embed (some model) dim)
  encode_text_tokens_for_inference (some model) (some text) dim = do
    let text_tokens_embed = model.embed text
    ensure (length (torch.shape text_tokens_embed) == 4) assertion_error
    ok (torch.squeeze text_tokens_embed)
