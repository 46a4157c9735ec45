-- ===== src/Http/Detect/Tests.antt =====
-- Connections that begin with the preface in two reads, and with a request.
use faio.Base.{ℕ, zero, suc, true, ◌≡◌, refl, [], ◌++◌, some, take, drop}
use faio.Http.Text.{codes}
use faio.Http.Detect.{
  Read, data_read, failed, Outcome, detected, http1, http2, preface, is_h2_preface_prefix,
  is_h2_preface_complete, classify, detect_from, detect_protocol, handle_connection, session_v2,
}
use faio.Http.Detect.Detection.{IsDetected, detect_protocol-IsDetected}

abbrev in_two : ℕ → Read
in_two zero = data_read (take 5 preface)
in_two (suc zero) = data_read (drop 5 preface ++ codes "more")
in_two (suc (suc n)) = data_read []

abbrev plain : ℕ → Read
plain zero = data_read (codes "PRINT")
plain (suc n) = failed 104

two_reads : detect_protocol in_two ≡ some (detected http2 (preface ++ codes "more"))
unfolding detect_protocol detect_from classify is_h2_preface_prefix is_h2_preface_complete
two_reads = refl

one_read : detect_protocol plain ≡ some (detected http1 (codes "PRINT"))
unfolding detect_protocol detect_from classify is_h2_preface_prefix is_h2_preface_complete
one_read = refl

connected : handle_connection true (detected http2 (codes "PRI")) ≡ session_v2 (codes "PRI")
unfolding handle_connection
connected = refl

detect_protocol-IsDetected_example :
    (o : Outcome) × (detect_protocol in_two ≡ some o) × IsDetected in_two 0 [] o
detect_protocol-IsDetected_example = detect_protocol-IsDetected in_two
