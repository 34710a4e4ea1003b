-- ===== src/RebootIntent/Document/Texts.antt =====
-- The texts of a valid intent of tools/automation/reboot_intent.py.
use zygveil.Base.{
  ℕ, ◌≤◌, String, ◌≡◌, refl, Bool, true, all_chars, count_chars, count_chars-matches,
  count_chars-matches_from, matches, matches_from, is_sha256, is_hex, is_digit, is_lower, &&-right,
  arith,
}
use Prim.Native.Char.{code}
use zygveil.Json.Members.{Plain, is_plain}
use zygveil.RebootIntent.Document.{
  Request, Identity, is_intent, is_name, is_state_name, is_context, is_counter, is_name_char,
  is_state_char, is_context_char, new_intent,
}

-- A weaker class of characters.
all_chars_mono :
    (p q : ℕ → Bool) (s : String)
    → ((c : ℕ) → p c ≡ true → q c ≡ true)
    → all_chars p s ≡ true
    → all_chars q s ≡ true
unfolding all_chars
all_chars_mono p q String.[] h a = refl
all_chars_mono p q (String.◌∷◌ c s) h a = ground (arith, h (code c), all_chars_mono p q s h)

-- What `is_intent` says of the six texts.
pub record ValidTexts (r : Request) (i : Identity) : Type 0 where
  pub operation : is_name r.operation ≡ true
  pub expected_state : is_state_name r.expected_state ≡ true
  pub context_id : is_context r.context_id ≡ true
  pub boot : is_sha256 i.boot_id_sha256 ≡ true
  pub pid : is_counter i.pid ≡ true
  pub ticks : is_counter i.start_ticks ≡ true

pub valid_texts :
    (r : Request) (i : Identity) → is_intent (new_intent r i) r ≡ true → ValidTexts r i
unfolding is_intent new_intent
valid_texts r i h = ground arith

matches_from-plain :
    (first test : ℕ → Bool) (most : ℕ) (s : String)
    → ((c : ℕ) → first c ≡ true → is_plain c ≡ true)
    → ((c : ℕ) → test c ≡ true → is_plain c ≡ true)
    → matches_from first test most s ≡ true
    → Plain s
unfolding matches_from all_chars
matches_from-plain first test most String.[] f h m = refl
matches_from-plain first test most (String.◌∷◌ c s) f h m =
    ground (arith, f (code c), all_chars_mono test is_plain s h)

matches-plain :
    (test : ℕ → Bool) (lo hi : ℕ) (s : String)
    → ((c : ℕ) → test c ≡ true → is_plain c ≡ true)
    → matches test lo hi s ≡ true
    → Plain s
unfolding matches
matches-plain test lo hi s h m = all_chars_mono test is_plain s h (&&-right _ _ m)

-- The texts of a valid intent are plain and short.
pub record Short (s : String) (n : ℕ) : Type 0 where
  pub is_plain : Plain s
  pub within : count_chars s ≤ n

pub name-Short : (s : String) → is_name s ≡ true → Short s 64
unfolding is_name
name-Short s h = record {
  is_plain =
      matches_from-plain is_lower is_name_char 63 s (λ c e. ground arith) (λ c e. ground arith) h;
  within = count_chars-matches_from is_lower is_name_char 63 s h;
}

pub state_name-Short : (s : String) → is_state_name s ≡ true → Short s 64
unfolding is_state_name
state_name-Short s h = record {
  is_plain =
      matches_from-plain is_lower is_state_char 63 s (λ c e. ground arith) (λ c e. ground arith) h;
  within = count_chars-matches_from is_lower is_state_char 63 s h;
}

pub context-Short : (s : String) → is_context s ≡ true → Short s 128
unfolding is_context
context-Short s h = record {
  is_plain = matches-plain is_context_char 1 128 s (λ c e. ground arith) h;
  within = count_chars-matches is_context_char 1 128 s h;
}

pub sha256-Short : (s : String) → is_sha256 s ≡ true → Short s 64
unfolding is_sha256
sha256-Short s h = record {
  is_plain = matches-plain is_hex 64 64 s (λ c e. ground arith) h;
  within = count_chars-matches is_hex 64 64 s h;
}

pub counter-Short : (s : String) → is_counter s ≡ true → Short s 20
unfolding is_counter
counter-Short s h = record {
  is_plain = matches-plain is_digit 1 20 s (λ c e. ground arith) h;
  within = count_chars-matches is_digit 1 20 s h;
}
