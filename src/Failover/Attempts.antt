-- ===== src/Failover/Attempts.antt =====
-- What one attempt at a stream yields, and what it leaves.
use existential_identity_tes.Base.{
  ℕ, zero, suc, ◌+◌, ◌≡◌, refl, Bool, true, false, String, List, [], ◌∷◌, ◌++◌, Option, none, some,
  select, map, not, if◌then◌else◌, arith,
}
use existential_identity_tes.Base.Text.{str_eq}
use existential_identity_tes.Failover.{
  Limits, Category, permanent, rate_limit, auth, server, timeout, error_category,
}
use existential_identity_tes.Failover.Select.{Ref}
use existential_identity_tes.Failover.Call.{
  World, Run, recoverable, note_failure, conclude, add_tried,
}
use existential_identity_tes.Failover.Phases.{Tried, note_failure-Frame, conclude-Tried}
use existential_identity_tes.Failover.Stream.{
  Line, skipped, done_mark, raising, content, StreamEnd, finished, cut_off, broken, StreamReply,
  refused, streaming, StreamVerdict, exhausted, read_stream, fail_stream, end_stream, refuse_stream,
  settle_stream,
}

-- The lines of a stream that are read: those before the mark of the end and before a line that
-- raises.
abbrev pub ends : Line → Bool
ends done_mark = true
ends raising = true
ends _ = false

abbrev pub read_lines : List Line → List Line
read_lines [] = []
read_lines (x ∷ ls) = let rest = read_lines ls in if ends x then [] else x ∷ rest

-- The texts of lines, but for the empty ones.
abbrev pub text_of : Line → String
text_of (content c) = c
text_of _ = ""

abbrev pub texts : List Line → List String
texts ls = select (λ c. not (str_eq c "")) (map text_of ls)

-- What a provider sends with a reply.
unfoldable pub chunks_of : StreamReply → List String
chunks_of (refused code) = []
chunks_of (streaming lines e) = texts (read_lines lines)

-- The stream is read as it is sent.
read_stream-texts : (ls : List Line) (e : StreamEnd) → (read_stream ls e).0 ≡ texts (read_lines ls)
unfolding read_stream
read_stream-texts [] e = refl
read_stream-texts (skipped ∷ ls) e = ground (arith, read_stream-texts ls e)
read_stream-texts (done_mark ∷ ls) e = refl
read_stream-texts (raising ∷ ls) e = refl
read_stream-texts (content c ∷ ls) e = ground (arith, read_stream-texts ls e)

-- What `n` replies yield, from the one with number `k` on.
unfoldable pub delivered : (ℕ → StreamReply) → ℕ → ℕ → List String
unfolding chunks_of
delivered replies k zero = []
delivered replies k (suc n) = chunks_of (replies k) ++ delivered replies (k + 1) n

-- The message at the end of a call that found no provider.
abbrev pub last_words : StreamVerdict → List String
last_words exhausted = "All providers exhausted. Please retry later." ∷ []
last_words _ = []

-- What an attempt leaves: it ends the call after its exchange, or another provider is tried.
abbrev pub Attempted : Ref → Run → Option StreamVerdict × Run → Type 0
Attempted a r (some v, s) = (s.exchanges ≡ r.exchanges + 1) × (last_words v ≡ [])
Attempted a r (none, s) = Tried a r s

-- A run after the exchange with a provider, before its outcome is noted.
abbrev pub Asked : Ref → Run → Run
Asked a r = record r { tried = add_tried a.seen.name r.tried; exchanges = r.exchanges + 1 }

module _ (w : World) (l : Limits) where
  fail_stream-Tried :
      (a : Ref) (probe : Bool) (k : Category) (r : Run)
      → Tried a r (fail_stream w l a probe k (Asked a r))
  unfolding fail_stream conclude
  fail_stream-Tried a true k r =
      conclude-Tried w l a true recoverable r (note_failure w l a.index k (Asked a r))
        (note_failure-Frame w l a.index k (Asked a r))
  fail_stream-Tried a false k r =
      conclude-Tried w l a false recoverable r (note_failure w l a.index k (Asked a r))
        (note_failure-Frame w l a.index k (Asked a r))

  end_stream-Attempted :
      (a : Ref) (probe : Bool) (e : StreamEnd) (r : Run)
      → Attempted a r (end_stream w l a probe e (Asked a r))
  unfolding end_stream
  end_stream-Attempted a probe finished r = (refl, refl)
  end_stream-Attempted a probe cut_off r = fail_stream-Tried a probe timeout r
  end_stream-Attempted a probe broken r = fail_stream-Tried a probe server r

  refuse_stream-Attempted :
      (a : Ref) (probe : Bool) (k : Category) (r : Run)
      → Attempted a r (refuse_stream w l a probe k (Asked a r))
  unfolding refuse_stream
  refuse_stream-Attempted a probe permanent r = (refl, refl)
  refuse_stream-Attempted a probe rate_limit r = fail_stream-Tried a probe rate_limit r
  refuse_stream-Attempted a probe auth r = fail_stream-Tried a probe auth r
  refuse_stream-Attempted a probe server r = fail_stream-Tried a probe server r
  refuse_stream-Attempted a probe timeout r = fail_stream-Tried a probe timeout r

  pub settle_stream-Attempted :
      (a : Ref) (probe : Bool) (x : StreamReply) (r : Run)
      → ((settle_stream w l a probe x (Asked a r)).0 ≡ chunks_of x)
        × Attempted a r (settle_stream w l a probe x (Asked a r)).1
  unfolding settle_stream chunks_of
  settle_stream-Attempted a probe (refused code) r =
      (refl, refuse_stream-Attempted a probe (error_category code) r)
  settle_stream-Attempted a probe (streaming lines e) r =
      (read_stream-texts lines e, end_stream-Attempted a probe (read_stream lines e).1 r)
