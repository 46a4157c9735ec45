-- ===== src/Http/SessionV1/Block/Status.antt =====
-- The status line (`append_status_line` of server_session_v1.hpp).
use faio.Base.{
  ℕ, ◌≡◌, refl, sym, ap, ◌∙◌, Bool, true, false, [], ◌∷◌, ◌++◌, append_assoc, if◌then◌else◌, ◌==◌,
  ==→eq,
}
use faio.Http.Text.{Bytes, codes}
use faio.Http.Ascii.{to_string}
use faio.Http.SessionV1.Block.{crlf, status_reason_phrase, with_reason, append_status_line}

-- The general form of a status line.
abbrev pub status_line : Bytes → ℕ → Bytes → Bytes
status_line out status reason =
    with_reason (out ++ (codes "HTTP/1.1 " ++ to_string status)) reason ++ crlf

if_both {ℓ κ} :
    {A : Type ℓ} {B : Type κ} (f : A → B) (b : Bool) (x y : A) (u v : B)
    → (b ≡ true → u ≡ f x)
    → (b ≡ false → v ≡ f y)
    → (if b then u else v) ≡ f (if b then x else y)
if_both f true x y u v h k = h refl
if_both f false x y u v h k = k refl

known_line :
    (out : Bytes) (status known c : ℕ) (reason line : Bytes)
    → line ≡ codes "HTTP/1.1 " ++ to_string known ++ (b' ' ∷ c ∷ reason) ++ crlf
    → (status == known) ≡ true
    → out ++ line ≡ status_line out status (c ∷ reason)
known_line out status known c reason line h e =
    let at = ==→eq status known e in
    ap (λ t. out ++ t) h
    ∙ sym (append_assoc out (codes "HTTP/1.1 " ++ to_string known ++ (b' ' ∷ c ∷ reason)) crlf)
    ∙ ap (λ t. t ++ crlf)
        (sym (append_assoc out (codes "HTTP/1.1 " ++ to_string known) (b' ' ∷ c ∷ reason)))
    ∙ ap (λ n. status_line out n (c ∷ reason)) (sym at)

-- The lines that the code writes out for the usual codes are those that its general branch makes with the
-- reason of `status_reason_phrase`, so that every status is written in one form.
pub append_status_line-status_reason_phrase :
    (out : Bytes) (status : ℕ)
    → append_status_line out status ≡ status_line out status (status_reason_phrase status)
unfolding append_status_line status_reason_phrase
append_status_line-status_reason_phrase out status =
    let f = status_line out status in
    if_both f (status == 200) (codes "OK") _ (out ++ (codes "HTTP/1.1 200 OK" ++ crlf)) _
      (known_line out status 200 b'O' (codes "K") (codes "HTTP/1.1 200 OK" ++ crlf) refl)
      (λ e0.
        if_both f (status == 201) (codes "Created") _
          (out ++ (codes "HTTP/1.1 201 Created" ++ crlf)) _
          (known_line out status 201 b'C' (codes "reated") (codes "HTTP/1.1 201 Created" ++ crlf)
            refl)
          (λ e1.
            if_both f (status == 204) (codes "No Content") _
              (out ++ (codes "HTTP/1.1 204 No Content" ++ crlf)) _
              (known_line out status 204 b'N' (codes "o Content")
                (codes "HTTP/1.1 204 No Content" ++ crlf) refl)
              (λ e2.
                if_both f (status == 400) (codes "Bad Request") _
                  (out ++ (codes "HTTP/1.1 400 Bad Request" ++ crlf)) _
                  (known_line out status 400 b'B' (codes "ad Request")
                    (codes "HTTP/1.1 400 Bad Request" ++ crlf) refl)
                  (λ e3.
                    if_both f (status == 404) (codes "Not Found") _
                      (out ++ (codes "HTTP/1.1 404 Not Found" ++ crlf)) _
                      (known_line out status 404 b'N' (codes "ot Found")
                        (codes "HTTP/1.1 404 Not Found" ++ crlf) refl)
                      (λ e4.
                        if_both f (status == 405) (codes "Method Not Allowed") _
                          (out ++ (codes "HTTP/1.1 405 Method Not Allowed" ++ crlf)) _
                          (known_line out status 405 b'M' (codes "ethod Not Allowed")
                            (codes "HTTP/1.1 405 Method Not Allowed" ++ crlf) refl)
                          (λ e5.
                            if_both f (status == 500) (codes "Internal Server Error") _
                              (out ++ (codes "HTTP/1.1 500 Internal Server Error" ++ crlf)) _
                              (known_line out status 500 b'I' (codes "nternal Server Error")
                                (codes "HTTP/1.1 500 Internal Server Error" ++ crlf) refl)
                              (λ e6.
                                let nothing : status_reason_phrase status ≡ [] =
                                  rw (e0, e1, e2, e3, e4, e5, e6) refl in
                                ap f nothing)))))))
