-- ===== src/Sentences/Tests.antt =====
-- The sentence spans of anchors.py on a small text, and their theorem at it.
use model_forensics_value_le.Prelude.{ℕ, ◌≡◌, refl, Bool, true, false, List, [], ◌∷◌, leb, ◌&&◌}
use model_forensics_value_le.Prelude.Outcome.{ok}
use model_forensics_value_le.Prelude.Text.{codes, is_space}
use model_forensics_value_le.Sentences.Scan.{
  SentenceSpan, terminal, at_end, sentence_span, is_terminal, is_closer, is_newline, char_is, skip,
  trim, is_decimal_point, punctuation_end, ends_sentence, scan, is_kept, with_span, spans_from,
  sentence_spans,
}
use model_forensics_value_le.Sentences.Ordered.{AreSpans, sentence_spans-AreSpans}

abbrev is_digit : ℕ → Bool
is_digit c = leb 48 c && leb c 57

abbrev never : List ℕ → Bool
never cs = false

abbrev always : List ℕ → Bool
always cs = true

abbrev sample : List ℕ
sample = codes "At 2.5 k. Yes!) \nok"

-- A decimal point ends no sentence, and closers belong to it.
split_sample :
    sentence_spans is_digit never always sample
    ≡ ok (
        record { index = 0; start = 0; end = 9; content = codes "At 2.5 k."; boundary = terminal }
        ∷ record { index = 1; start = 10; end = 15; content = codes "Yes!)"; boundary = terminal }
        ∷ record { index = 2; start = 17; end = 19; content = codes "ok"; boundary = at_end }
        ∷ [])
unfolding sentence_spans spans_from skip char_is is_space scan is_newline ends_sentence is_terminal
    is_closer is_decimal_point punctuation_end trim with_span is_kept sentence_span
split_sample = refl

sentence_spans-AreSpans_example :
    (ss : List SentenceSpan) × (sentence_spans is_digit never always sample ≡ ok ss)
    × AreSpans is_digit never always sample 0 0 ss
sentence_spans-AreSpans_example = sentence_spans-AreSpans is_digit never always sample
