-- ===== src/Server/Replies.antt =====
-- What translateAsciiToHttp makes of the protocol's answers.
use distributed_ascii_server.Prelude.{
  ℕ, zero, suc, ◌+◌, ◌-◌, ◌*◌, ◌/◌, ◌%◌, ◌^◌, ◌<◌, ◌≡◌, refl, sym, ap, ◌∙◌, inl, inr, true, false,
  some, [], ◌∷◌, ◌++◌, append_assoc, arith, ltb, length, length-append, Bool-cases, Option-cases,
}
use distributed_ascii_server.Text.{
  Bytes, bytes, done, sub_size, slash, find, find_from, contains, starts_with, substr,
}
use distributed_ascii_server.Text.Laws.{
  Free, find-prefix, find_byte, find_from_middle, contains-find, substr_part,
}
use distributed_ascii_server.Server.Http.{
  digits_from, to_string, translate_ascii_to_http, http_error, http_ok,
}

-- The number that decimal digits stand for, read after `n`.
abbrev pub value_from : ℕ → Bytes → ℕ
value_from n [] = n
value_from n (c ∷ s) = value_from (n * 10 + (c - b'0')) s

-- 10 to the power `k`, times `n`.
abbrev tens : ℕ → ℕ → ℕ
tens zero n = n
tens (suc k) n = tens k n * 10

digits_from-value :
    (fuel n : ℕ) (out : Bytes)
    → n < tens fuel 1
    → value_from 0 (digits_from fuel n out) ≡ value_from n out
unfolding digits_from
digits_from-value zero n out h = ap (λ (m : ℕ). value_from m out) (omega arith)
digits_from-value (suc fuel) n out h = elim (Bool-cases (ltb n 10)) [
  | inl small ↦ rw small (ap (λ (m : ℕ). value_from m out) (ground (arith, small)))
  | inr big ↦ rw big (
      digits_from-value fuel (n / 10) ((b'0' + n % 10) ∷ out) (omega arith)
      ∙ ap (λ (m : ℕ). value_from m out) (omega arith))
]

-- The Content-Length that the server writes is read back as the length, for every 64-bit size.
pub to_string-value : (n : ℕ) → n < 2 ^ 64 → value_from 0 (to_string n) ≡ n
unfolding to_string
to_string-value n h = digits_from-value 20 n [] (omega arith)

abbrev pub ok_answer : Bytes → Bytes
ok_answer content = bytes "BEGIN/OK/" ++ (content ++ bytes "/END")

abbrev pub error_answer : Bytes → Bytes → Bytes
error_answer code message = bytes "BEGIN/ERROR/" ++ (code ++ (b'/' ∷ (message ++ bytes "/END")))

-- No error message starts inside the mark of an OK answer.
pub contains-ok_answer :
    (s : Bytes)
    → contains (bytes "BEGIN/ERROR/") (bytes "BEGIN/OK/" ++ s) ≡ contains (bytes "BEGIN/ERROR/") s
unfolding contains find starts_with
contains-ok_answer s = elim (Option-cases (find (bytes "BEGIN/ERROR/") s)) [
  | inl e ↦ rw (e, contains) refl
  | inr (i, e) ↦ rw (e, contains) refl
]

pub ok_answer_marked : (content : Bytes) → contains (bytes "BEGIN/OK/") (ok_answer content) ≡ true
ok_answer_marked content =
    contains-find (bytes "BEGIN/OK/") (ok_answer content) 0
      (find-prefix (bytes "BEGIN/OK/") (content ++ bytes "/END"))

-- What stands between the two marks of an OK answer.
pub ok_answer_content :
    (content : Bytes)
    → length content < 2 ^ 63
    → substr (ok_answer content) 9 (sub_size (length (ok_answer content)) 13) ≡ done content
ok_answer_content content size =
    let size_all = length-append {0} content (bytes "/END") in
    substr_part (ok_answer content) (bytes "BEGIN/OK/") content (bytes "/END") 9
      (sub_size (length (ok_answer content)) 13) refl refl (omega arith)

-- An OK answer becomes a 200 reply with the same content, unless the content, with the end mark
-- behind it, holds the mark of an error. The size bound keeps the length a size_t.
pub translate_ok :
    (content : Bytes)
    → length content < 2 ^ 63
    → contains (bytes "BEGIN/ERROR/") (content ++ bytes "/END") ≡ false
    → translate_ascii_to_http (ok_answer content) ≡ done (http_ok content)
unfolding translate_ascii_to_http
translate_ok content size clean =
    rw
      (
        contains-ok_answer (content ++ bytes "/END"),
        clean,
        ok_answer_marked content,
        ok_answer_content content size,
      )
      refl

-- An error answer becomes a reply with its code in the status line and its message as the body.
pub translate_error :
    (code message : Bytes)
    → Free b'/' code
    → length code + length message < 2 ^ 63
    → translate_ascii_to_http (error_answer code message) ≡ done (http_error code message)
unfolding translate_ascii_to_http
translate_error code message plain size =
    rw
      (
        contains-find mark answer 0 found,
        found,
        after_code,
        substr_part answer mark code tail 12 (sub_size (12 + length code) 12) refl refl
            (omega arith),
        substr_part answer (mark ++ (code ++ slash)) message (bytes "/END")
            ((12 + length code + 1) % 18446744073709551616)
            (sub_size (sub_size (length answer) (12 + length code)) 5)
            (ap (λ (s : Bytes). mark ++ s)
              (sym (append_assoc code slash (message ++ bytes "/END"))))
            (omega (arith, length-append {0} code slash))
            (omega (arith, length-append {0} code tail, length-append {0} message (bytes "/END"))),
      )
      refl
  where
    mark : Bytes
    mark = bytes "BEGIN/ERROR/"

    tail : Bytes
    tail = b'/' ∷ (message ++ bytes "/END")

    answer : Bytes
    answer = error_answer code message

    found : find mark answer ≡ some 0
    found = find-prefix mark (code ++ tail)

    after_code : find_from slash answer 12 ≡ some (12 + length code)
    after_code =
        find_from_middle slash mark (code ++ tail) 12 (length code) refl
          (find_byte b'/' code (message ++ bytes "/END") plain)
