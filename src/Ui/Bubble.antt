-- ===== src/Ui/Bubble.antt =====
-- crates/client-ui/src/message_ui.rs: the texts of a bubble. Layout and colors are not modelled.
use rsmsg.Base.{
  ℕ, suc, ◌≤◌, Bool, true, false, [], ◌∷◌, ◌≡◌, refl, ◌⊎◌, inl, inr, Bool-cases, ◌&&◌, leb, nat_eq,
  arith, if◌then◌else◌,
}
use rsmsg.Base.Text.{Text, codes, is_whitespace}
use rsmsg.Ui.History.{MessageStatus, sending, sent, delivered, read, failed}

unfoldable pub message_status_label : MessageStatus → Text
message_status_label sending = codes "sending"
message_status_label sent = codes "sent"
message_status_label delivered = codes "delivered"
message_status_label read = codes "read"
message_status_label failed = codes "failed"

-- The loop of `hard_wrap_long_words`, from its variable `run` on.
unfoldable pub wrap_from : ℕ → ℕ → Text → Text
wrap_from max_run run [] = []
wrap_from max_run run (c ∷ s) =
    let after_space = wrap_from max_run 0 s in
    let broken = wrap_from max_run 1 s in
    let longer = wrap_from max_run (suc run) s in
    if is_whitespace c
    then c ∷ after_space
    else if leb max_run run
    then b'\n' ∷ c ∷ broken
    else c ∷ longer

unfoldable pub hard_wrap_long_words : Text → ℕ → Text
hard_wrap_long_words text max_run = wrap_from max_run 0 text

-- No run of characters without white space is longer than the limit, where one of the given length
-- stands before the text.
unfoldable pub short_runs : ℕ → ℕ → Text → Bool
short_runs max_run run [] = leb run max_run
short_runs max_run run (c ∷ s) =
    let next = short_runs max_run 0 s in
    let longer = short_runs max_run (suc run) s in
    leb run max_run && (if is_whitespace c then next else longer)

-- The second text is the first with line breaks put in.
pub data Broken : Text → Text → Type 0 where
  end : Broken [] []
  kept : (c : ℕ) (s out : Text) → Broken s out → Broken (c ∷ s) (c ∷ out)
  break : (s out : Text) → Broken s out → Broken s (b'\n' ∷ out)

newline_space : is_whitespace b'\n' ≡ true
unfolding is_whitespace
newline_space = refl

wrap_from-short :
    (max_run run : ℕ) (s : Text)
    → 1 ≤ max_run
    → run ≤ max_run
    → short_runs max_run run (wrap_from max_run run s) ≡ true
unfolding wrap_from short_runs
wrap_from-short max_run run [] h k = ground arith
wrap_from-short max_run run (c ∷ s) h k =
    let a = wrap_from-short max_run 0 s h (omega arith) in
    let b = wrap_from-short max_run 1 s h h in
    let d = wrap_from-short max_run (suc run) s h in ground (arith, a, b, d, newline_space)

wrap_from-Broken : (max_run run : ℕ) (s : Text) → Broken s (wrap_from max_run run s)
unfolding wrap_from
wrap_from-Broken max_run run [] = end
wrap_from-Broken max_run run (c ∷ s) =
    let a = kept c s _ (wrap_from-Broken max_run 0 s) in
    let b = break (c ∷ s) _ (kept c s _ (wrap_from-Broken max_run 1 s)) in
    let d = kept c s _ (wrap_from-Broken max_run (suc run) s) in
    elim (Bool-cases (is_whitespace c)) [
      | inl e ↦ rw (e, wrap_from) a
      | inr e ↦ elim (Bool-cases (leb max_run run)) [
        | inl f ↦ rw (e, f, wrap_from) b
        | inr f ↦ rw (e, f, wrap_from) d
      ]
    ]

short_runs-le : (max_run run : ℕ) (s : Text) → short_runs max_run run s ≡ true → run ≤ max_run
unfolding short_runs
short_runs-le max_run run [] h = ground arith
short_runs-le max_run run (c ∷ s) h = ground arith

wrap_from-same :
    (max_run run : ℕ) (s : Text) → short_runs max_run run s ≡ true → wrap_from max_run run s ≡ s
unfolding short_runs wrap_from
wrap_from-same max_run run [] h = refl
wrap_from-same max_run run (c ∷ s) h =
    let a = wrap_from-same max_run 0 s in
    let b = wrap_from-same max_run (suc run) s in
    let le = short_runs-le max_run (suc run) s in ground (arith, a, b, le)

-- Long words are broken, and nothing is lost: for a limit that is not zero, no run without white space
-- is longer than the limit after the wrapping, what comes out is the text, white space included, with
-- line breaks put in and nothing else changed, and it is the text itself unless a run of it is too long.
pub hard_wrap_long_words_lem :
    (text : Text) (max_run : ℕ)
    → 1 ≤ max_run
    → (short_runs max_run 0 (hard_wrap_long_words text max_run) ≡ true)
      × Broken text (hard_wrap_long_words text max_run)
      × ((short_runs max_run 0 text ≡ false) ⊎ (hard_wrap_long_words text max_run ≡ text))
unfolding hard_wrap_long_words
hard_wrap_long_words_lem text max_run h = (
  wrap_from-short max_run 0 text h (omega arith),
  wrap_from-Broken max_run 0 text,
  elim (Bool-cases (short_runs max_run 0 text)) [
    | inl short ↦ inr (wrap_from-same max_run 0 text short)
    | inr long ↦ inl long
  ],
)
