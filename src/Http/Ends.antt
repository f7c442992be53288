-- ===== src/Http/Ends.antt =====
-- commonsrc/src/http_server.cpp: the loop of `parseRequest` on any connection of the server.
use qclib.Base.{
  ℕ, zero, suc, ◌+◌, ◌≤◌, ◌<◌, ◌≡◌, ◌⊎◌, inl, inr, refl, sym, ap, subst, ◌∙◌, arith, Bool, true,
  false, not, List, [], ◌∷◌, ◌++◌, Option, none, some, ◌>>=◌, length, drop, Bool-cases,
  Option-cases, ◌==◌, if◌then◌else◌,
}
use qclib.Names.{Name}
use qclib.DbGateway.{strstr, starts_with}
use qclib.Http.{
  HttpLib, crlf, find_byte, process_request_line, Parse, parse_line, parse_header, parse_body,
  parse_round, parse_loop, start_parse, parse_request, Run, running, aborted, ended,
}
use qclib.Http.Server.{Action, Connection, on_connect, answer, on_lib_message_callback, arrives}

pub data Phase : Type 0 where
  at_line at_headers at_body at_end : Phase

abbrev pub is_line : Phase → Bool
is_line at_line = true
is_line at_headers = false
is_line at_body = false
is_line at_end = false

abbrev pub is_headers : Phase → Bool
is_headers at_line = false
is_headers at_headers = true
is_headers at_body = false
is_headers at_end = false

abbrev pub is_body : Phase → Bool
is_body at_line = false
is_body at_headers = false
is_body at_body = true
is_body at_end = false

abbrev pub is_end : Phase → Bool
is_end at_line = false
is_end at_headers = false
is_end at_body = false
is_end at_end = true

-- `HttpContext`: the tests read a phase, which only the `receive` calls and `reset` change.
pub record IsLawful (L : HttpLib) (phase : L.Context → Phase) : Type 0 where
  pub line_lem : (c : L.Context) → L.expect_request_line c ≡ is_line (phase c)
  pub headers_lem : (c : L.Context) → L.expect_headers c ≡ is_headers (phase c)
  pub body_lem : (c : L.Context) → L.expect_body c ≡ is_body (phase c)
  pub end_lem : (c : L.Context) → L.got_all c ≡ is_end (phase c)
  pub new_lem : phase L.new_context ≡ at_line
  pub reset_lem : (c : L.Context) → phase (L.reset c) ≡ at_line
  pub line_received : (c : L.Context) → phase (L.receive_request_line c) ≡ at_headers
  pub headers_received : (c : L.Context) → phase (L.receive_headers c) ≡ at_body
  pub body_received : (c : L.Context) → phase (L.receive_body c) ≡ at_end
  pub request_lem : (c : L.Context) (r : L.Request) → phase (L.set_request c r) ≡ phase c

-- What is behind a line that was found is two bytes shorter than the text, or more.
abbrev pub Cut : ℕ → Option (Name × Name) → Type 0
Cut n none = Unit {0}
Cut n (some (line, at)) = (length (drop 2 at) + 2 ≤ n) × (2 ≤ length at)

Cut-later :
    (n c : ℕ) (o : Option (Name × Name))
    → Cut n o
    → Cut (suc n) (o >>= λ found. let (before, at) = found in some (c ∷ before, at))
Cut-later n c none h = tt
Cut-later n c (some (before, at)) (h, two) = (omega arith, two)

Cut-first :
    (found : Bool) (n : ℕ) (at : Name) (o : Option (Name × Name))
    → 2 ≤ length at
    → length at ≤ n
    → Cut n o
    → Cut n (if found then some ([], at) else o)
Cut-first true n (a ∷ b ∷ at) o two long h = (omega arith, two)
Cut-first true n (a ∷ []) o two long h = absurd (omega arith)
Cut-first true n [] o two long h = absurd (omega arith)
Cut-first false n at o two long h = h

Cut-crlf : (t : Name) → Cut (length t) (strstr t crlf)
unfolding strstr
Cut-crlf [] = tt
Cut-crlf (a ∷ []) = elim (Bool-cases (13 == a)) [ inl e ↦ rw e tt | inr e ↦ rw e tt ]
Cut-crlf (a ∷ b ∷ t) =
    Cut-first (starts_with crlf (a ∷ b ∷ t)) (length (a ∷ b ∷ t)) (a ∷ b ∷ t) _ (omega arith)
      (omega arith) (Cut-later (length (b ∷ t)) a (strstr (b ∷ t) crlf) (Cut-crlf (b ∷ t)))

Run-cases : {A : Type 0} (r : Run A) → ((r ≡ running) ⊎ (r ≡ aborted)) ⊎ ((a : A) × (r ≡ ended a))
Run-cases running = inl (inl refl)
Run-cases aborted = inl (inr refl)
Run-cases (ended a) = inr (a, refl)

module _ (L : HttpLib) (phase : L.Context → Phase) (law : IsLawful L phase) where
  -- The loop stops, or the buffer is shorter and the request not complete.
  abbrev Safe : ℕ → Parse L → Type 0
  Safe n p =
      (p.has_more ≡ false)
      ⊎ ((p.has_more ≡ true) × (length p.buf + 2 ≤ n) × (is_end (phase p.context) ≡ false))

  abbrev AllSafe : ℕ → Option (Parse L) → Type 0
  AllSafe n none = Unit {0}
  AllSafe n (some p) = Safe n p

  parse_line-AllSafe :
      (time : ℕ) (p : Parse L) (found : Option (Name × Name))
      → Cut (length p.buf) found
      → p.has_more ≡ true
      → AllSafe (length p.buf) (parse_line L time p found)
  parse_line-AllSafe time p none h m = inl refl
  parse_line-AllSafe time p (some (line, at)) (h, two) m =
      elim (Option-cases (process_request_line L line p.context)) [
        | inl e ↦ rw e tt
        | inr ((true, context'), e) ↦ rw e (inr (m, h, ap is_end (law.line_received _)))
        | inr ((false, context'), e) ↦ rw e (inl refl)
      ]

  parse_header-Safe :
      (p : Parse L) (found : Option (Name × Name))
      → Cut (length p.buf) found
      → p.has_more ≡ true
      → is_end (phase p.context) ≡ false
      → Safe (length p.buf) (parse_header L p found)
  parse_header-Safe p none h m e = inl refl
  parse_header-Safe p (some (line, at)) (h, two) m e = elim (Option-cases (find_byte 58 line)) [
    | inl none_lem ↦
        let later : is_end (phase (L.receive_headers p.context)) ≡ false =
          ap is_end (law.headers_received p.context) in
        rw (none_lem, parse_header) (inr (ap not (law.end_lem _ ∙ later), h, later))
    | inr ((field, colon), some_lem) ↦
        rw (some_lem, parse_header) (inr (m, h, ap is_end (law.request_lem _ _) ∙ e))
  ]

  parse_body-Safe : (n : ℕ) (p : Parse L) → Safe n (parse_body L p)
  parse_body-Safe n p = elim (Bool-cases (L.is_post (L.request p.context))) [
    | inl e ↦ rw e (inl refl)
    | inr e ↦ rw e (inl refl)
  ]

  parse_round-AllSafe :
      (time : ℕ) (p : Parse L) (ph : Phase)
      → p.has_more ≡ true
      → phase p.context ≡ ph
      → is_end ph ≡ false
      → AllSafe (length p.buf) (parse_round L time p)
  unfolding parse_round
  parse_round-AllSafe time p at_line m q e =
      rw (law.line_lem p.context, q) (parse_line-AllSafe time p _ (Cut-crlf p.buf) m)
  parse_round-AllSafe time p at_headers m q e =
      rw (law.line_lem p.context, law.headers_lem p.context, q)
        (parse_header-Safe p _ (Cut-crlf p.buf) m (ap is_end q))
  parse_round-AllSafe time p at_body m q e =
      rw (law.line_lem p.context, law.headers_lem p.context, law.body_lem p.context, q)
        (parse_body-Safe (length p.buf) p)
  parse_round-AllSafe time p at_end m q e = cc

  abbrev EndedWell : Run (Parse L) → Type 0
  EndedWell running = ⊥
  EndedWell aborted = Unit {0}
  EndedWell (ended p) = Unit {0}

  parse_loop-EndedWell :
      (fuel time : ℕ) (p : Parse L)
      → p.has_more ≡ true
      → is_end (phase p.context) ≡ false
      → length p.buf < fuel
      → EndedWell (parse_loop L fuel time p)
  unfolding parse_loop
  parse_loop-EndedWell zero time p m e f = absurd (omega arith)
  parse_loop-EndedWell (suc fuel) time p m e f =
      let safe = parse_round-AllSafe time p (phase p.context) m refl e in
      elim (Option-cases (parse_round L time p)) [
        | inl none_lem ↦ rw (none_lem, EndedWell) tt
        | inr (p', some_lem) ↦
            let safe' : Safe (length p.buf) p' = subst (AllSafe (length p.buf)) some_lem safe in
            elim safe' [
              | inl stop ↦ rw (some_lem, stop, EndedWell) tt
              | inr (more, short, e') ↦
                  rw (some_lem, more, EndedWell)
                    (parse_loop-EndedWell fuel time p' more e' (omega arith))
            ]
      ]

  -- The request of a connection is not complete.
  abbrev IsReady : Connection L → Type 0
  IsReady conn = is_end (phase conn.context) ≡ false

  abbrev AllReady : Run (Connection L) → Type 0
  AllReady running = Unit {0}
  AllReady aborted = Unit {0}
  AllReady (ended conn) = IsReady conn

  answer-IsReady :
      (now favicon : Name) (actions : List Action) (p : Parse L)
      → IsReady (answer L now favicon actions p)
  answer-IsReady now favicon actions p = elim (Bool-cases (L.got_all p.context)) [
    | inl e ↦ rw e (ap is_end (law.reset_lem _))
    | inr e ↦ rw e (sym (law.end_lem _) ∙ e)
  ]

  on_lib_message_callback-AllReady :
      (fuel time : ℕ) (now favicon : Name) (conn : Connection L)
      → AllReady (on_lib_message_callback L fuel time now favicon conn)
  unfolding on_lib_message_callback
  on_lib_message_callback-AllReady fuel time now favicon conn =
      elim (parse_request L fuel time conn.context conn.buf)
        as (λ r. AllReady (elim r [
          | running ↦ running
          | aborted ↦ aborted
          | ended p ↦ ended (answer L now favicon conn.actions p)
        ])) [ running ↦ tt | aborted ↦ tt | ended p ↦ answer-IsReady now favicon conn.actions p ]

  -- A connection that has opened, after any arrivals of data.
  pub data Reached : Connection L → Type 0 where
    opened : Reached (on_connect L)
    later :
        (fuel time : ℕ) (now favicon content : Name) (conn conn' : Connection L)
        → Reached conn
        → on_lib_message_callback L fuel time now favicon (arrives L content conn) ≡ ended conn'
        → Reached conn'

  Reached-IsReady : (conn : Connection L) → Reached conn → IsReady conn
  Reached-IsReady conn opened = ap is_end law.new_lem
  Reached-IsReady conn (later fuel time now favicon content before after r e) =
      subst AllReady e
        (on_lib_message_callback-AllReady fuel time now favicon (arrives L content before))

  -- On a connection with any history of arrivals, whatever arrives now: with a round of the loop for
  -- each byte in the buffer, and one more, onLibMessageCallback comes to its end, or the program ends
  -- at an assertion; the loop of parseRequest does not run for ever.
  pub on_lib_message_callback-ends :
      (fuel time : ℕ) (now favicon content : Name) (conn : Connection L)
      → Reached conn
      → length (conn.buf ++ content) < fuel
      → (on_lib_message_callback L fuel time now favicon (arrives L content conn) ≡ aborted)
        ⊎ ((conn' : Connection L) × (on_lib_message_callback L fuel time now favicon
                (arrives L content conn)
              ≡ ended conn'))
  unfolding on_lib_message_callback
  on_lib_message_callback-ends fuel time now favicon content conn r f =
      let well =
        parse_loop-EndedWell fuel time (start_parse L conn.context (conn.buf ++ content)) refl
          (Reached-IsReady conn r) f in
      elim (Run-cases (parse_request L fuel time conn.context (conn.buf ++ content))) [
        | inl (inl e) ↦ absurd (subst EndedWell e well)
        | inl (inr e) ↦ inl (rw (on_lib_message_callback, e) refl)
        | inr (p, e) ↦
            inr (answer L now favicon conn.actions p, rw (on_lib_message_callback, e) refl)
      ]
