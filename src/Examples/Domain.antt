-- ===== src/Examples/Domain.antt =====
-- The theorems on events, payloads and queries at concrete inputs.
use chronometrics.Common.{ℕ, ◌≡◌, ◌↔◌, refl, true, none, some, [], ◌∷◌, arith, Text, txt}
use chronometrics.Common.Int.{pos}
use chronometrics.Errors.{err_user_id_missing, err_timestamp_too_past}
use chronometrics.Errors.Laws.{reports}
use chronometrics.Common.{true}
use chronometrics.Domain.Event.{validate}
use chronometrics.Domain.Event.Reports.{fails, reports-validate}
use chronometrics.Domain.Event.Window.{IsAcceptable, validate-eq-none, validate_long_past}
use chronometrics.Domain.Payload.Injective.{
  NoNull, Content, IsNullFree, SameContent, payload_of, payload_iff,
}
use chronometrics.Examples.{platform, clock, ahead, back, raw_event}

validate-eq-none_example :
    (validate platform clock (some raw_event) (pos ahead) (pos back) ≡ none)
    ↔ IsAcceptable clock raw_event ahead back
validate-eq-none_example =
    validate-eq-none platform clock raw_event ahead back (omega arith) (omega arith) (omega arith)
      (omega arith)

reports-validate_example :
    reports err_user_id_missing (validate platform clock (some raw_event) (pos ahead) (pos back))
    ≡ fails clock raw_event (pos ahead) (pos back) err_user_id_missing
reports-validate_example =
    reports-validate platform clock raw_event (pos ahead) (pos back) err_user_id_missing

-- A window of sixty years.
abbrev sixty_years : ℕ
sixty_years = 1892160000000000000

validate_long_past_example :
    reports err_timestamp_too_past
      (validate platform clock (some raw_event) (pos ahead) (pos sixty_years))
    ≡ true
validate_long_past_example =
    validate_long_past platform clock raw_event (pos ahead) sixty_years 1699999999 (omega arith)
      (omega arith) refl (omega arith) (omega arith)

abbrev content : Text → Text → Content
content s t = record {
  channel = txt "web";
  campaign_id = txt "c";
  tags = s ∷ t ∷ [];
  priority = [];
  metadata = txt "{}";
}

content-IsNullFree : (s t : Text) → NoNull s → NoNull t → IsNullFree (content s t)
content-IsNullFree s t h k = record {
  channel = ground arith;
  campaign_id = ground arith;
  tags = (h, (k, tt));
  priority = ground arith;
  metadata = ground arith;
}

payload_iff_example :
    (payload_of (content (txt "a") (txt "b")) ≡ payload_of (content (txt "b") (txt "a")))
    ↔ SameContent (content (txt "a") (txt "b")) (content (txt "b") (txt "a"))
payload_iff_example =
    payload_iff (content (txt "a") (txt "b")) (content (txt "b") (txt "a"))
      (content-IsNullFree (txt "a") (txt "b") (ground arith) (ground arith))
      (content-IsNullFree (txt "b") (txt "a") (ground arith) (ground arith))
