-- ===== src/Http/Twice.antt =====
-- commonsrc/src/http_server.cpp: what a request line that `processRequestLine` refuses leaves behind.
use qclib.Base.{
  ℕ, suc, ◌≡◌, refl, ap, ◌∙◌, subst, Bool, true, false, ◌&&◌, [], ◌∷◌, ◌++◌, Option, none, some,
  ◌>>=◌, ◌==◌, length, take, drop, Bool-cases, Option-cases, inl, inr,
}
use qclib.Names.{Name, same}
use qclib.DbGateway.{bytes, strstr, starts_with}
use qclib.Http.{
  HttpLib, http10, http11, crlf, find_byte, read_version, read_target, read_line,
  process_request_line, parse_round, parse_loop, aborted, ended, Parse, after_line, start_parse,
}
use qclib.Http.Server.{bad_request, Connection, on_lib_message_callback, arrives, answer}
use qclib.Http.Ends.{IsLawful, Phase, at_line, is_line, is_end}

-- `HttpRequest`: `setMethod` asserts that there is no method yet, and nothing else but a new request
-- takes it away.
pub record KeepsMethod (L : HttpLib) (has_method : L.Request → Bool) : Type 0 where
  pub set_twice : (r : L.Request) (m : Name) → has_method r ≡ true → L.set_method r m ≡ none
  pub set_known :
      (r r' : L.Request) (m : Name) → L.set_method r m ≡ some (true, r') → has_method r' ≡ true
  pub path_lem : (r : L.Request) (p : Name) → has_method (L.set_path r p) ≡ has_method r
  pub query_lem : (r : L.Request) (q : Name) → has_method (L.set_query r q) ≡ has_method r
  pub version_lem : (r : L.Request) (v : _) → has_method (L.set_version r v) ≡ has_method r
  pub kept_request : (c : L.Context) (r : L.Request) → L.request (L.set_request c r) ≡ r

-- A line that was found is found again when more has arrived.
abbrev Stays : Name → Name → Option (Name × Name) → Type 0
Stays t more none = Unit {0}
Stays t more (some (line, at)) = strstr (t ++ more) crlf ≡ some (line, at ++ more)

Stays-later :
    (a : ℕ) (t more : Name) (o : Option (Name × Name))
    → starts_with crlf (a ∷ (t ++ more)) ≡ false
    → Stays t more o
    → Stays (a ∷ t) more (o >>= λ found. let (before, at) = found in some (a ∷ before, at))
unfolding strstr
Stays-later a t more none e h = tt
Stays-later a t more (some (before, at)) e h = rw (e, h) refl

strstr-Stays : (t more : Name) → Stays t more (strstr t crlf)
unfolding strstr
strstr-Stays [] more = tt
strstr-Stays (a ∷ []) more = elim (Bool-cases (13 == a)) [ inl e ↦ rw e tt | inr e ↦ rw e tt ]
strstr-Stays (a ∷ b ∷ t) more = elim (Bool-cases (starts_with crlf (a ∷ b ∷ t))) [
  | inl e ↦ rw e (rw e refl)
  | inr e ↦ rw e (Stays-later a (b ∷ t) more _ e (strstr-Stays (b ∷ t) more))
]

strstr-append :
    (t more line at : Name)
    → strstr t crlf ≡ some (line, at)
    → strstr (t ++ more) crlf ≡ some (line, at ++ more)
strstr-append t more line at e = subst (Stays t more) e (strstr-Stays t more)

module _ (L : HttpLib) (phase : L.Context → Phase) (law : IsLawful L phase)
    (has_method : L.Request → Bool) (keeps : KeepsMethod L has_method) where
  read_target-keeps :
      (target : Name) (r : L.Request) → has_method (read_target L target r) ≡ has_method r
  unfolding read_target
  read_target-keeps target r = elim (Option-cases (find_byte 63 target)) [
    | inl e ↦ rw (e, read_target) (keeps.path_lem r target)
    | inr ((path, query), e) ↦ rw (e, read_target) (keeps.query_lem _ query ∙ keeps.path_lem r path)
  ]

  read_version-keeps :
      (version : Name) (r : L.Request) → has_method ((read_version L version r).1) ≡ has_method r
  unfolding read_version
  read_version-keeps version r =
      elim (Bool-cases (length version == 8 && same (take 7 version) (bytes "HTTP/1."))) [
        | inr e ↦ rw e refl
        | inl e ↦ elim (Bool-cases (same (drop 7 version) (bytes "1"))) [
          | inl one ↦ rw (e, one) (keeps.version_lem r http11)
          | inr other ↦ elim (Bool-cases (same (drop 7 version) (bytes "0"))) [
            | inl none_lem ↦ rw (e, other, none_lem) (keeps.version_lem r http10)
            | inr bad ↦ rw (e, other, bad) refl
          ]
        ]
      ]

  read_line-keeps :
      (text : Name) (r : L.Request) → has_method ((read_line L text r).1) ≡ has_method r
  unfolding read_line
  read_line-keeps text r = elim (Option-cases (find_byte 32 text)) [
    | inl e ↦ rw (e, read_line) refl
    | inr ((target, at), e) ↦
        rw (e, read_line)
          (read_version-keeps (drop 1 at) (read_target L target r) ∙ read_target-keeps target r)
  ]

  process-refused :
      (line method at : Name) (req : L.Request) (context : L.Context)
      → find_byte 32 line ≡ some (method, at)
      → L.set_method (L.request context) method ≡ some (true, req)
      → (read_line L (drop 1 at) req).0 ≡ false
      → process_request_line L line context
        ≡ some (false, L.set_request context (read_line L (drop 1 at) req).1)
  unfolding process_request_line
  process-refused line method at req context split known bad =
      rw (split, known, process_request_line) (rw bad refl)

  process-aborted :
      (line method at : Name) (context : L.Context)
      → find_byte 32 line ≡ some (method, at)
      → L.set_method (L.request context) method ≡ none
      → process_request_line L line context ≡ none
  unfolding process_request_line
  process-aborted line method at context split refused =
      rw (split, refused, process_request_line) refl

  line_round :
      (time : ℕ) (p : Parse L) (line rest : Name) (o : Option (Bool × L.Context))
      → L.expect_request_line p.context ≡ true
      → strstr p.buf crlf ≡ some (line, rest)
      → process_request_line L line p.context ≡ o
      → parse_round L time p ≡ (o >>= λ done. some (after_line L time p rest done.0 done.1))
  unfolding parse_round
  line_round time p line rest o expect found e = rw (expect, found, e) refl

  callback-stopped :
      (fuel time : ℕ) (now favicon : Name) (conn : Connection L) (p : Parse L)
      → parse_round L time (start_parse L conn.context conn.buf) ≡ some p
      → p.has_more ≡ false
      → on_lib_message_callback L (suc fuel) time now favicon conn
        ≡ ended (answer L now favicon conn.actions p)
  unfolding on_lib_message_callback parse_loop
  callback-stopped fuel time now favicon conn p e m =
      rw (on_lib_message_callback, parse_loop, e, m) refl

  callback-aborted :
      (fuel time : ℕ) (now favicon : Name) (conn : Connection L)
      → parse_round L time (start_parse L conn.context conn.buf) ≡ none
      → on_lib_message_callback L (suc fuel) time now favicon conn ≡ aborted
  unfolding on_lib_message_callback parse_loop
  callback-aborted fuel time now favicon conn e = rw (on_lib_message_callback, parse_loop, e) refl

  -- A connection that waits for a request line, with a whole line in its buffer that has a method which
  -- muduo knows but goes on badly, over muduo's assertion that a method is set once:
  -- onLibMessageCallback refuses the request with 400 and a shutdown, and the next data that arrives,
  -- whatever it is, ends the program, as the line is still in the buffer and its method in the context.
  pub bad_line-twice :
      (fuel fuel' time time' : ℕ) (now now' favicon more line rest method at : Name)
      (req : L.Request) (conn : Connection L)
      → phase conn.context ≡ at_line
      → strstr conn.buf crlf ≡ some (line, rest)
      → find_byte 32 line ≡ some (method, at)
      → L.set_method (L.request conn.context) method ≡ some (true, req)
      → (read_line L (drop 1 at) req).0 ≡ false
      → (conn' : Connection L) × (on_lib_message_callback L (suc fuel) time now favicon conn
          ≡ ended conn')
        × (conn'.actions ≡ conn.actions ++ bad_request)
        × (on_lib_message_callback L (suc fuel') time' now' favicon (arrives L more conn')
            ≡ aborted)
  unfolding on_lib_message_callback parse_loop parse_round process_request_line
  bad_line-twice fuel fuel' time time' now now' favicon more line rest method at req conn ph found
        split known bad =
      let after : L.Request = (read_line L (drop 1 at) req).1 in
      let context' : L.Context = L.set_request conn.context after in
      let ph' : phase context' ≡ at_line = law.request_lem conn.context after ∙ ph in
      let expect : L.expect_request_line conn.context ≡ true = law.line_lem _ ∙ ap is_line ph in
      let expect' : L.expect_request_line context' ≡ true = law.line_lem _ ∙ ap is_line ph' in
      let open_lem : L.got_all context' ≡ false = law.end_lem _ ∙ ap is_end ph' in
      let refused : L.set_method (L.request context') method ≡ none =
        ap (λ (r : L.Request). L.set_method r method) (keeps.kept_request conn.context after)
        ∙ keeps.set_twice after method
            (read_line-keeps (drop 1 at) req ∙ keeps.set_known _ req method known) in
      (
        record { context = context'; buf = conn.buf; actions = conn.actions ++ bad_request },
        callback-stopped fuel time now favicon conn _
              (line_round time (start_parse L conn.context conn.buf) line rest _ expect found
                (process-refused line method at req conn.context split known bad))
              refl
            ∙ rw open_lem refl,
        refl,
        callback-aborted fuel' time' now' favicon _ (
            line_round time' (start_parse L context' (conn.buf ++ more)) line (rest ++ more) none
              expect' (strstr-append conn.buf more line rest found)
              (process-aborted line method at context' split refused)),
      )
