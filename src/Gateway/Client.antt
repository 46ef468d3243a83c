-- ===== src/Gateway/Client.antt =====
-- A client of src/gpibsrv/gpibsrv.c, its bytes cut into any pieces.
use jornada_gpib.Prelude.{
  ℕ, ◌≤◌, ◌≡◌, refl, sym, ◌∙◌, ap, ◌&&◌, not, Bool, true, false, if◌then◌else◌, List, [], ◌∷◌, ◌++◌,
  length, take, map, arith,
}
use jornada_gpib.Api.State.{Os}
use jornada_gpib.Gateway.State.{
  line_max, chunk_max, Net, Server, Run, done, busy, G, and_then, ◌>>=◌, ◌>>◌, give, gateway,
}
use jornada_gpib.Gateway.Serve.{
  Lexer, Incoming, received, complete, take_bytes, client_loop, serve_client,
}
use jornada_gpib.Gateway.Lines.{
  Token, byte, newline, unescape, dangling, split_lines, last_line, lines_of, handle_lines,
  take-all, take_bytes-from,
}
use jornada_gpib.Gateway.Preserves.{Preserves, Preserves-bind, Preserves-give, server_of}
use jornada_gpib.Gateway.Preserves.Stable.{IsStable, is_quit, Preserves-handle_line}

unescape-append :
    (e : Bool) (xs ys : List ℕ)
    → unescape e (xs ++ ys) ≡ unescape e xs ++ unescape (dangling e xs) ys
unescape-append e [] ys = refl
unescape-append true (c ∷ cs) ys = rw (unescape-append false cs ys) refl
unescape-append false (c ∷ cs) ys =
    ground (arith, unescape-append false cs ys, unescape-append true cs ys)

split-append :
    (start : List ℕ) (ts us : List Token)
    → split_lines start (ts ++ us) ≡ split_lines start ts ++ split_lines (last_line start ts) us
split-append start [] us = refl
split-append start (byte c ∷ ts) us = split-append (start ++ c ∷ []) ts us
split-append start (newline ∷ ts) us = rw (split-append [] ts us) refl

-- No line is ++quit.
abbrev pub no_quit : List (List ℕ) → Bool
no_quit [] = true
no_quit (l ∷ ls) = not (is_quit (take line_max l)) && no_quit ls

no_quit-append : (ks ls : List (List ℕ)) → no_quit (ks ++ ls) ≡ no_quit ks && no_quit ls
no_quit-append [] ls = refl
no_quit-append (k ∷ ks) ls = ground (arith, no_quit-append ks ls)

-- What one call of `recv` may give.
pub data AreChunks : List (List ℕ) → Type 0 where
  no_chunks : AreChunks []
  one_more :
      {c : ℕ} {cs : List ℕ} {more : List (List ℕ)}
      → length (c ∷ cs) ≤ chunk_max
      → AreChunks more
      → AreChunks ((c ∷ cs) ∷ more)

abbrev pub joined : List (List ℕ) → List ℕ
joined [] = []
joined (c ∷ cs) = c ++ joined cs

running-IsStable : IsStable (λ g. g.stop ≡ false)
running-IsStable = record {
  address = λ g v n e p. p;
  auto = λ g b p. p;
  eoi_set = λ g b p. p;
  eos_set = λ g v e p. p;
  timeout = λ g v e p. p;
  counted = λ g n p. p;
}

then_assoc :
    (r : Run (Unit {0})) (m n p : G (Unit {0}))
    → ((u : Server) → m u ≡ (n >> p) u)
    → and_then r (λ t. m) ≡ and_then (and_then r (λ t. n)) (λ t. p)
then_assoc (done t u) m n p h = h u
then_assoc (busy u) m n p h = refl

not_stopped :
    (b : Bool) (m n : G (Unit {0})) (s : Server) → b ≡ false → (if b then m else n) s ≡ n s
not_stopped b m n s e = rw e refl

module _ (rounds : ℕ) ⦃os : Os⦄ ⦃net : Net⦄ where
  handle_lines-append :
      (ks ls : List (List ℕ)) (s : Server)
      → handle_lines rounds (ks ++ ls) s ≡ (handle_lines rounds ks >> handle_lines rounds ls) s
  unfolding handle_lines give
  handle_lines-append [] ls s = refl
  handle_lines-append (k ∷ ks) ls s =
      then_assoc (complete rounds (take line_max k) s) _ _ _ (λ u. handle_lines-append ks ls u)

  Preserves-complete :
      (l : List ℕ) → is_quit l ≡ false → Preserves (λ g. g.stop ≡ false) (complete rounds l)
  unfolding complete
  Preserves-complete [] e = Preserves-give tt
  Preserves-complete (c ∷ cs) e =
      Preserves-handle_line rounds (c ∷ cs) running-IsStable (λ q g p. absurd (cc (q, e)))

  -- The server is not stopped by lines none of which is ++quit.
  Preserves-handle_lines :
      (ls : List (List ℕ))
      → no_quit ls ≡ true
      → Preserves (λ g. g.stop ≡ false) (handle_lines rounds ls)
  unfolding handle_lines
  Preserves-handle_lines [] e = Preserves-give tt
  Preserves-handle_lines (l ∷ ls) e =
      Preserves-bind _ _ (Preserves-complete (take line_max l) (ground (arith, e)))
        (λ t. Preserves-handle_lines ls (ground (arith, e)))

  -- After a chunk whose lines were handled in `r`, and before the next.
  after_chunk :
      (r : Run (Unit {0})) (l : Lexer) (later : List Incoming) (lines : List (List ℕ))
      → (server_of r).gw.stop ≡ false
      → ((u : Server)
          → u.gw.stop ≡ false
          → client_loop rounds l 0 later u ≡ handle_lines rounds lines u)
      → and_then
          (and_then r (λ t. give l))
          (λ l'. gateway >>= λ gw. if gw.stop then give tt else client_loop rounds l' 0 later)
        ≡ and_then r (λ t. handle_lines rounds lines)
  unfolding give gateway
  after_chunk (done t u) l later lines e h = not_stopped u.gw.stop _ _ u e ∙ h u e
  after_chunk (busy u) l later lines e h = refl

  -- From any unfinished line.
  client_loop-lines :
      (start : List ℕ) (escaped : Bool) (idle_ticks : ℕ) (chunks : List (List ℕ))
      (later : List Incoming) (s : Server)
      → AreChunks chunks
      → no_quit (split_lines start (unescape escaped (joined chunks))) ≡ true
      → s.gw.stop ≡ false
      → client_loop rounds
          (record { line = take line_max start; escaped = escaped })
          idle_ticks
          (map received chunks ++ received [] ∷ later)
          s
        ≡ handle_lines rounds (split_lines start (unescape escaped (joined chunks))) s
  unfolding client_loop handle_lines
  client_loop-lines start escaped idle_ticks [] later s good quits runs = refl
  client_loop-lines start escaped idle_ticks ([] ∷ more) later s good quits runs = elim good [ ]
  client_loop-lines start escaped idle_ticks ((c ∷ cs) ∷ more) later s (one_more fits good) quits
        runs =
      let bytes : List ℕ = c ∷ cs in
      let ts : List Token = unescape escaped bytes in
      let first : List (List ℕ) = split_lines start ts in
      let then' : List (List ℕ) =
        split_lines (last_line start ts) (unescape (dangling escaped bytes) (joined more)) in
      let cut : split_lines start (unescape escaped (bytes ++ joined more)) ≡ first ++ then' =
        rw (unescape-append escaped bytes (joined more)) (split-append start ts _) in
      let parts : no_quit first && no_quit then' ≡ true =
        sym (no_quit-append first then') ∙ ap no_quit (sym cut) ∙ quits in
      let goes_on : Lexer → G (Unit {0}) = λ l'. gateway >>= λ gw.
      if gw.stop
      then give tt
      else client_loop rounds l' 0 (map received more ++ received [] ∷ later) in
      let rest' : List Incoming = map received more ++ received [] ∷ later in
      ap
        (λ b.
          and_then
            (take_bytes rounds (record { line = take line_max start; escaped = escaped }) b s)
            goes_on)
        (take-all chunk_max bytes fits)
      ∙ ap (λ r. and_then r goes_on) (take_bytes-from rounds start escaped bytes s)
      ∙ after_chunk (handle_lines rounds first s) _ rest' then'
          ((Preserves-handle_lines first (ground (arith, parts))).at s runs)
          (λ u e.
            client_loop-lines (last_line start ts) (dangling escaped bytes) 0 more later u good
              (ground (arith, parts)) e)
      ∙ sym (handle_lines-append first then' s)
      ∙ ap (λ ls. handle_lines rounds ls s) (sym cut)

  -- A client whose bytes come in any chunks, and that then closes, has the lines of all its bytes
  -- handled as they stand, each once and in order, where none of them is ++quit and the server is
  -- not stopped: it does not matter how the network cuts the bytes.
  pub serve_client-lines :
      (chunks : List (List ℕ)) (later : List Incoming) (s : Server)
      → AreChunks chunks
      → no_quit (lines_of (joined chunks)) ≡ true
      → s.gw.stop ≡ false
      → serve_client rounds (map received chunks ++ received [] ∷ later) s
        ≡ handle_lines rounds (lines_of (joined chunks)) s
  unfolding serve_client
  serve_client-lines chunks later s good quits runs =
      client_loop-lines [] false 0 chunks later s good quits runs
