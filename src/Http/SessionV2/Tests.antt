-- ===== src/Http/SessionV2/Tests.antt =====
-- Two streams whose frames come between each other.
use faio.Base.{ℕ, ◌≡◌, refl, true, false, List, [], ◌∷◌, some, arith}
use faio.Http.Text.{Bytes, codes}
use faio.Http.SessionV2.{
  Call, begin_headers, header_field, headers_frame, data_frame, data_chunk, callbacks, new_state,
}
use faio.Http.SessionV2.Streams.{requests_of}
use faio.Http.SessionV2.Assembly.{request_with, concat_frames, callbacks-request_with}
use faio.Http.SessionV2.BodySource.{pull, pull-body}

abbrev fields : List (Bytes × Bytes)
fields =
    (codes ":method", codes "POST") ∷ (codes ":path", codes "/up") ∷ (codes "k", codes "v") ∷ []

abbrev frames : List (List Bytes)
frames = (codes "ab" ∷ codes "c" ∷ []) ∷ (codes "d" ∷ []) ∷ []

abbrev mixed : List (ℕ × Call)
mixed =
    (1, begin_headers)
    ∷ (1, header_field (codes ":method") (codes "POST"))
    ∷ (1, header_field (codes ":path") (codes "/up"))
    ∷ (1, header_field (codes "k") (codes "v"))
    ∷ (1, headers_frame true false)
    ∷ (3, begin_headers)
    ∷ (3, header_field (codes ":path") (codes "/other"))
    ∷ (1, data_chunk (codes "ab"))
    ∷ (3, headers_frame true true)
    ∷ (1, data_chunk (codes "c"))
    ∷ (1, data_frame false)
    ∷ (1, data_chunk (codes "d"))
    ∷ (1, data_frame true)
    ∷ []

callbacks-request_with_example :
    requests_of 1 (callbacks mixed new_state).pending_requests
    ≡ request_with fields (concat_frames frames) ∷ []
callbacks-request_with_example = callbacks-request_with mixed 1 fields frames refl

pull-body_example :
    pull 6 (λ i. 2) 0 (record { body = codes "hello"; offset = 0 }) ≡ some (codes "hello")
pull-body_example = pull-body (codes "hello") (λ i. 2) (λ j. omega arith)
