-- ===== src/Query/Tokens.antt =====
-- IndexManager::tokenizeText, which splits a field for a full-text index.
use bb_pipeline.Common.{
  ℕ, ◌+◌, Bool, not, ◌&&◌, ◌||◌, List, [], ◌∷◌, ◌++◌, Text, codes, ◌=t◌, leb, ◌==◌, if◌then◌else◌,
}
use bb_pipeline.Query.Values.{is_digit, is_space}

abbrev pub is_upper : ℕ → Bool
is_upper c = leb 65 c && leb c 90

abbrev pub is_word : ℕ → Bool
is_word c = is_digit c || is_upper c || leb 97 c && leb c 122 || c == 95

abbrev pub to_lower : ℕ → ℕ
to_lower c = if is_upper c then c + 32 else c

abbrev pub fold_case : Bool → ℕ → ℕ
fold_case case_sensitive c = if case_sensitive then c else to_lower c

abbrev pub flush_token : Text → List Text
flush_token [] = []
flush_token (c ∷ cs) = (c ∷ cs) ∷ []

-- The loop over the characters with the token so far; the characters to keep are a parameter.
unfoldable pub split_tokens : (ℕ → Bool) → (ℕ → ℕ) → Text → Text → List Text
split_tokens keep fold current [] = flush_token current
split_tokens keep fold current (c ∷ cs) =
    let more = split_tokens keep fold (current ++ (fold c ∷ [])) cs in
    let cut = split_tokens keep fold [] cs in if keep c then more else flush_token current ++ cut

unfoldable pub tokenize_text : Text → Text → Bool → List Text
tokenize_text text tokenizer case_sensitive =
    if tokenizer =t codes "standard"
    then split_tokens is_word (fold_case case_sensitive) [] text
    else if tokenizer =t codes "whitespace"
    then split_tokens (λ c. not (is_space c)) (fold_case case_sensitive) [] text
    else []
