-- ===== src/Http/Server/Ports.antt =====
-- streamserver-cvn-cli/http/httpserver.cpp: the port of a host, described by the text of the host.
use streamserver_cvn.Prelude.{
  ℕ, ◌≡◌, ◌≢◌, ◌⊎◌, refl, sym, subst, inl, inr, true, false, ◌==◌, [], ◌∷◌, ◌++◌, append_assoc,
  arith, Bytes, Bool-cases, All,
}
use streamserver_cvn.Http.Text.{ascii}
use streamserver_cvn.Http.Finding.{IsOther, first_byte}
use streamserver_cvn.Http.Response.{contains}
use streamserver_cvn.Http.Server.{colon, ends_with, with_port}

-- A host with no colon gets ":80" behind it, one with nothing behind its last colon gets "80", and
-- any other has a port.
abbrev pub HasPort : Bytes → Bytes → Type 0
HasPort host full =
    (All (IsOther b':') host × (full ≡ host ++ ascii ":80"))
    ⊎ ((name : Bytes) × (host ≡ name ++ ascii ":") × (full ≡ name ++ ascii ":80"))
    ⊎ ((name port : Bytes) × (c : ℕ) × (host ≡ (name ++ b':' ∷ port) ++ c ∷ [])
        × (c ≢ b':')
        × (full ≡ host))

contains_none : (host : Bytes) → All (IsOther colon) host → contains colon host ≡ false
unfolding contains
contains_none [] h = refl
contains_none (c ∷ host) (h, hs) = ground (arith, contains_none host hs)

contains-append : (a b : Bytes) → contains colon (a ++ colon ∷ b) ≡ true
unfolding contains
contains-append [] b = ground arith
contains-append (c ∷ a) b = ground (arith, contains-append a b)

ends_with-append : (a : Bytes) (c : ℕ) → ends_with colon (a ++ c ∷ []) ≡ (c == colon)
unfolding ends_with
ends_with-append [] c = refl
ends_with-append (x ∷ []) c = refl
ends_with-append (x ∷ y ∷ a) c = ends_with-append (y ∷ a) c

pub same_port : (host full : Bytes) → HasPort host full → with_port host ≡ full
unfolding with_port
same_port host full (inl (free, f)) = rw (f, contains_none host free)
same_port host full (inr (inl (name, e, f))) =
    rw (f, e)
      (rw (contains-append name [], ends_with-append name colon)
        (append_assoc name (ascii ":") (ascii "80")))
same_port host full (inr (inr (name, port, c, e, other, f))) =
    let ends : (c == colon) ≡ false = ground arith in
    let has : contains colon ((name ++ b':' ∷ port) ++ c ∷ []) ≡ true =
      rw (append_assoc name (b':' ∷ port) (c ∷ [])) (contains-append name (port ++ c ∷ [])) in
    rw (f, e) (rw (has, ends_with-append (name ++ b':' ∷ port) c, ends))

-- Bytes are none, or have a last one.
last_byte : (bytes : Bytes) → (bytes ≡ []) ⊎ ((a : Bytes) × (c : ℕ) × (bytes ≡ a ++ c ∷ []))
last_byte [] = inl refl
last_byte (b ∷ bytes) = elim (last_byte bytes) [
  | inl e ↦ inr ([], b, rw e)
  | inr (a, c, e) ↦ inr (b ∷ a, c, rw e)
]

some_port : (host : Bytes) → (full : Bytes) × HasPort host full
some_port host = elim (first_byte b':' host) [
  | inl (absent, free) ↦ (host ++ ascii ":80", inl (free, refl))
  | inr (name, port, i, e, free) ↦ elim (last_byte port) [
    | inl n ↦ (name ++ ascii ":80", inr (inl (name, rw (e, n), refl)))
    | inr (a, c, l) ↦
        let split : host ≡ (name ++ b':' ∷ a) ++ c ∷ [] =
          rw (e, l) (sym (append_assoc name (b':' ∷ a) (c ∷ []))) in
        elim (Bool-cases (c == colon)) [
          | inl q ↦
              let is_colon : c ≡ b':' = ground arith in
              (
                (name ++ b':' ∷ a) ++ ascii ":80",
                inr (inl (name ++ b':' ∷ a, rw is_colon at split, refl)),
              )
          | inr q ↦ (host, inr (inr (name, a, c, split, ground arith, refl)))
        ]
  ]
]

-- `with_port` gives each host its port.
pub with_port-HasPort : (host : Bytes) → HasPort host (with_port host)
with_port-HasPort host =
    let (full, h) = some_port host in subst (HasPort host) (sym (same_port host full h)) h
