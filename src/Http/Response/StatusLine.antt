-- ===== src/Http/Response/StatusLine.antt =====
-- The status line of a response: the checks of the setters keep it one line of three parts.
use streamserver_cvn.Prelude.{
  ℕ, ◌≤◌, ◌≡◌, refl, sym, ◌∙◌, inl, inr, true, false, ◌||◌, [], ◌∷◌, ◌++◌, append_assoc, some,
  arith, ltb, ◌==◌, length, Bytes, Bool-cases,
}
use streamserver_cvn.Prelude.Outcome.{Outcome, ok, ◌>>=◌, Outcome-cases}
use streamserver_cvn.Http.Text.{cr, lf, sp, index_of, starts_with}
use streamserver_cvn.Http.WhiteSpace.{is_empty}
use streamserver_cvn.Http.Request.{line_sep, field_sep_start_line}
use streamserver_cvn.Http.Response.{
  Response, Error, contains, set_http_version, set_status_code, set_status_msg, blank_response,
  new_response, status_line, header_bytes, to_bytes,
}

-- What the setters check.
pub record IsResponse (r : Response) : Type 0 where
  pub version : is_empty r.http_version ≡ false
  pub version_sp : contains sp r.http_version ≡ false
  pub version_cr : contains cr r.http_version ≡ false
  pub version_lf : contains lf r.http_version ≡ false
  pub status_min : 100 ≤ r.status_code
  pub status_max : r.status_code ≤ 999
  pub msg_cr : contains cr r.status_msg ≡ false
  pub msg_lf : contains lf r.status_msg ≡ false

contains-append : (c : ℕ) (a b : Bytes) → contains c (a ++ b) ≡ contains c a || contains c b
unfolding contains
contains-append c [] b = refl
contains-append c (x ∷ a) b = ground (arith, contains-append c a b)

starts_with_itself : (n b : Bytes) → starts_with n (n ++ b) ≡ true
unfolding starts_with
starts_with_itself [] b = refl
starts_with_itself (x ∷ n) b = ground (arith, starts_with_itself n b)

-- The first occurrence of a separator behind text that its first byte is not in.
index_of-free :
    (c : ℕ) (needle a b : Bytes)
    → contains c a ≡ false
    → index_of (c ∷ needle) (a ++ ((c ∷ needle) ++ b)) ≡ some (length a)
unfolding contains index_of starts_with
index_of-free c needle [] b h =
    let same : (c == c) ≡ true = ground arith in rw (same, starts_with_itself needle b)
index_of-free c needle (x ∷ a) b h = elim (Bool-cases (x == c)) [
  | inl e ↦ absurd (let z = rw e at h in cc)
  | inr e ↦
      let other : (c == x) ≡ false = ground arith in
      rw (other, index_of-free c needle a b (rw e at h))
]

abbrev returns : Response → Outcome Error Response (Unit {0})
returns r = ok tt r

returned : {r s : Response} → returns r ≡ returns s → r ≡ s
returned e = cc

-- Each setter that checks returns only if the checks hold.
set_http_version_accepts :
    (v : Bytes) (r : Response)
    → is_empty v ≡ false
    → (contains sp v || contains cr v || contains lf v) ≡ false
    → set_http_version v r ≡ ok tt (record r { http_version = v })
unfolding set_http_version
set_http_version_accepts v r e f = rw (e, f)

set_http_version-ok :
    (v : Bytes) (r s : Response)
    → set_http_version v r ≡ ok tt s
    → (s ≡ record r { http_version = v })
      × ((is_empty v ≡ false)
          × ((contains sp v ≡ false) × ((contains cr v ≡ false) × (contains lf v ≡ false))))
unfolding set_http_version
set_http_version-ok v r s q = elim (Bool-cases (is_empty v)) [
  | inl e ↦ absurd (let z = rw e at q in cc)
  | inr e ↦ elim (Bool-cases (contains sp v || contains cr v || contains lf v)) [
    | inl f ↦ absurd (let z = rw (e, f) at q in cc)
    | inr f ↦ (
      returned (sym q ∙ set_http_version_accepts v r e f),
      (e, (ground arith, (ground arith, ground arith))),
    )
  ]
]

set_status_code_accepts :
    (n : ℕ) (r : Response)
    → (ltb n 100 || ltb 999 n) ≡ false
    → set_status_code n r ≡ ok tt (record r { status_code = n })
unfolding set_status_code
set_status_code_accepts n r f = rw f

set_status_code-ok :
    (n : ℕ) (r s : Response)
    → set_status_code n r ≡ ok tt s
    → (s ≡ record r { status_code = n }) × ((100 ≤ n) × (n ≤ 999))
set_status_code-ok n r s q = elim (Bool-cases (ltb n 100 || ltb 999 n)) [
  | inl f ↦ absurd (unfold set_status_code in let z = rw f at q in cc)
  | inr f ↦ (returned (sym q ∙ set_status_code_accepts n r f), (ground arith, ground arith))
]

set_status_msg_accepts :
    (m : Bytes) (r : Response)
    → (contains cr m || contains lf m) ≡ false
    → set_status_msg m r ≡ ok tt (record r { status_msg = m })
unfolding set_status_msg
set_status_msg_accepts m r f = rw f

set_status_msg-ok :
    (m : Bytes) (r s : Response)
    → set_status_msg m r ≡ ok tt s
    → (s ≡ record r { status_msg = m }) × ((contains cr m ≡ false) × (contains lf m ≡ false))
set_status_msg-ok m r s q = elim (Bool-cases (contains cr m || contains lf m)) [
  | inl f ↦ absurd (unfold set_status_msg in let z = rw f at q in cc)
  | inr f ↦ (returned (sym q ∙ set_status_msg_accepts m r f), (ground arith, ground arith))
]

-- A constructor that does not throw has made a response whose version, status code and message pass
-- the checks.
pub new_response-IsResponse :
    (n : ℕ) (m v : Bytes) (r : Response) → new_response n m v ≡ ok tt r → IsResponse r
unfolding new_response
new_response-IsResponse n m v r q = elim (Outcome-cases (set_http_version v blank_response)) [
  | inr (x, s, e) ↦ absurd (let z = rw (e, ◌>>=◌) at q in cc)
  | inl (u, s, e) ↦
      let q' = rw (e, ◌>>=◌) at q in
      let (at_s, (v0, (v1, (v2, v3)))) = set_http_version-ok v blank_response s e in
      elim (Outcome-cases (set_status_code n s)) [
        | inr (x, t, f) ↦ absurd (let z = rw (f, ◌>>=◌) at q' in cc)
        | inl (w, t, f) ↦
            let q'' = rw (f, ◌>>=◌) at q' in
            let (at_t, (n0, n1)) = set_status_code-ok n s t f in
            let (at_r, (m0, m1)) = set_status_msg-ok m t r q'' in
            rw (at_r, at_t, at_s)
              (record {
                version = v0;
                version_sp = v1;
                version_cr = v2;
                version_lf = v3;
                status_min = n0;
                status_max = n1;
                msg_cr = m0;
                msg_lf = m1;
              })
      ]
]

module _ (number : ℕ → Bytes) (r : Response) (v : IsResponse r) where
  status_line_free :
      contains cr (number r.status_code) ≡ false → contains cr (status_line number r) ≡ false
  status_line_free plain =
      let sep : contains cr field_sep_start_line ≡ false = unfold contains in refl in
      rw (
        contains-append cr r.http_version (
            field_sep_start_line
            ++ (number r.status_code ++ (field_sep_start_line ++ r.status_msg))),
        v.version_cr,
        contains-append cr field_sep_start_line
            (number r.status_code ++ (field_sep_start_line ++ r.status_msg)),
        sep,
        contains-append cr (number r.status_code) (field_sep_start_line ++ r.status_msg),
        plain,
        contains-append cr field_sep_start_line r.status_msg,
        sep,
        v.msg_cr,
      )

  -- In the bytes of a response that passes the checks, the first line separator ends the status line,
  -- and the first space in it ends the version: what a client takes for the status line is just the
  -- version, the code and the message, if the text of the code has no line break in it.
  pub to_bytes-status_line :
      contains cr (number r.status_code) ≡ false
      → (index_of line_sep (to_bytes number r) ≡ some (length (status_line number r)))
        × (index_of field_sep_start_line (to_bytes number r) ≡ some (length r.http_version))
  unfolding to_bytes
  to_bytes-status_line plain = (
    index_of-free cr (lf ∷ []) (status_line number r)
        (header_bytes r.header ++ (line_sep ++ r.body)) (status_line_free plain),
    rw
        (append_assoc r.http_version
          (field_sep_start_line ++ (number r.status_code ++ (field_sep_start_line ++ r.status_msg)))
          (line_sep ++ (header_bytes r.header ++ (line_sep ++ r.body))))
        (index_of-free sp [] r.http_version
          ((number r.status_code ++ (field_sep_start_line ++ r.status_msg))
            ++ (line_sep ++ (header_bytes r.header ++ (line_sep ++ r.body))))
          v.version_sp),
  )
