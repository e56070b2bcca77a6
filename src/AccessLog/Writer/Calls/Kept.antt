-- ===== src/AccessLog/Writer/Calls/Kept.antt =====
-- pkg/logger/accesslog/accesslog.go: the files, of calls that run at the same time.
use mathlib.Core.Path.{subst}
use fasthttpd.Base.{
  if_cases, ℕ, zero, suc, ◌≡◌, refl, sym, ap, ◌⊎◌, inl, inr, Bool, true, Option, none, some, List,
  [], ◌∷◌, ◌++◌, append_assoc, append-nil, Option-cases, eq_of_some, get_elem?, set, All,
  All-append, Bytes,
}
use fasthttpd.AccessLog.Context.{Context}
use fasthttpd.AccessLog.Writer.{AppendFunc, AccessLog, flush, rotate, rotate_out, format_line}
use fasthttpd.AccessLog.Writer.Laws.{
  Keeps, flush-Keeps, write-Keeps, rotate-Keeps, rotate_out-Keeps,
}
use fasthttpd.AccessLog.Writer.Setup.{flush-IsSetUp, write-IsSetUp, rotate-IsSetUp}
use fasthttpd.AccessLog.Writer.Lines.{line_of}
use fasthttpd.AccessLog.Writer.Calls.{
  Call, checked, formatted, marked, flushed, returned, System, Event, calls_log, calls_close,
  goes_on, ticks, rotates, rotates_shared, begin_log, begin_close, clear, advance, go_on, next,
  run_calls,
}

-- The line that an event writes: that of a Log that goes on with it.
abbrev pub written_by : AppendFunc → Option Call → Bytes
written_by f (some (formatted ctx line)) = line_of f ctx
written_by f (some (checked ctx)) = []
written_by f (some marked) = []
written_by f (some flushed) = []
written_by f (some returned) = []
written_by f none = []

abbrev pub line_at : AppendFunc → Event → System → Bytes
line_at f (goes_on i) st = written_by f (get_elem? st.calls i)
line_at f (calls_log ctx) st = []
line_at f calls_close st = []
line_at f ticks st = []
line_at f (rotates fails) st = []
line_at f (rotates_shared fails) st = []

-- The lines of the calls of Log, in the order in which they come to write.
unfoldable pub written : AppendFunc → List Event → System → Bytes
written f [] st = []
written f (e ∷ es) st =
    line_at f e st ++ (elim (next e st) [ none ↦ [] | some st' ↦ written f es st' ])

module _ {A : Type 0} (P : A → Type 0) where
  pub All-get : (xs : List A) (i : ℕ) {x : A} → get_elem? xs i ≡ some x → All P xs → P x
  All-get [] i e a = cc
  All-get (y ∷ xs) zero e a = subst P (eq_of_some e) a.0
  All-get (y ∷ xs) (suc i) e a = All-get xs i e a.1

  pub All-set : (xs : List A) (i : ℕ) (x : A) → P x → All P xs → All P (set xs i x)
  All-set [] i x p a = tt
  All-set (y ∷ xs) zero x p a = (p, a.1)
  All-set (y ∷ xs) (suc i) x p a = (a.0, All-set xs i x p a.1)

-- What is true of a call, where `closed` has the value.
abbrev pub IsTrue : AppendFunc → Bool → Call → Type 0
IsTrue f closed (checked ctx) = Unit
IsTrue f closed (formatted ctx line) = line ≡ line_of f ctx
IsTrue f closed marked = closed ≡ true
IsTrue f closed flushed = closed ≡ true
IsTrue f closed returned = Unit

IsTrue-closed : (f : AppendFunc) (closed : Bool) (c : Call) → IsTrue f closed c → IsTrue f true c
IsTrue-closed f closed (checked ctx) h = tt
IsTrue-closed f closed (formatted ctx line) h = h
IsTrue-closed f closed marked h = refl
IsTrue-closed f closed flushed h = refl
IsTrue-closed f closed returned h = tt

All-closed :
    (f : AppendFunc) (closed : Bool) (cs : List Call)
    → All (IsTrue f closed) cs
    → All (IsTrue f true) cs
All-closed f closed [] a = tt
All-closed f closed (c ∷ cs) a = (IsTrue-closed f closed c a.0, All-closed f closed cs a.1)

-- The function of the lines is there or nil.
abbrev pub HasLine : AppendFunc → AccessLog → Type 0
HasLine f l = (l.append_line ≡ some f) ⊎ (l.append_line ≡ none)

format_line-HasLine :
    (f : AppendFunc) (ctx : Context) (l : AccessLog) (line : Bytes)
    → HasLine f l
    → format_line ctx l ≡ some line
    → line ≡ line_of f ctx
unfolding format_line
format_line-HasLine f ctx l line (inl h) e = sym (eq_of_some (rw h at e))
format_line-HasLine f ctx l line (inr h) e = cc (rw h at e)

-- What a step of a call leaves.
record IsKept (f : AppendFunc) (text : Bytes) (l : AccessLog) (c : Call) (l' : AccessLog)
    : Type 0 where
  call : IsTrue f l.closed c
  same_closed : l'.closed ≡ l.closed
  line : HasLine f l'
  keeps : Keeps text l'

pair_eq :
    {A B : Type 0} {a a' : A} {b b' : B}
    → ◌≡◌ {A = Option (A × B)} (some (a, b)) (some (a', b'))
    → (a ≡ a') × (b ≡ b')
pair_eq e = let q = eq_of_some e in (ap (λ x. x.0) q, ap (λ x. x.1) q)

advance-IsKept :
    (f : AppendFunc) (text : Bytes) (c c' : Call) (l l' : AccessLog)
    → IsTrue f l.closed c
    → HasLine f l
    → Keeps text l
    → advance c l ≡ some (c', l')
    → IsKept f (text ++ written_by f (some c)) l c' l'
unfolding advance clear
advance-IsKept f text (checked ctx) c' l l' t h k e = elim (Option-cases (format_line ctx l)) [
  | inl n ↦ cc (rw (n, advance) at e)
  | inr (line, n) ↦
      let (ec, el) = pair_eq (rw (n, advance) at e) in
      rw (← ec, ← el, append-nil text)
        (record {
          call = format_line-HasLine f ctx l line h n;
          same_closed = refl;
          line = h;
          keeps = k;
        })
]
advance-IsKept f text (formatted ctx line) c' l l' t h k e =
    let (ec, el) = pair_eq e in
    let same = write-IsSetUp line l in
    rw (← ec, ← el, ← t)
      (record {
        call = tt;
        same_closed = same.same_closed;
        line = subst (λ o. (o ≡ some f) ⊎ (o ≡ none)) (sym same.same_line) h;
        keeps = write-Keeps text line l k;
      })
advance-IsKept f text marked c' l l' t h k e =
    let (ec, el) = pair_eq e in
    let same = flush-IsSetUp l in
    rw (← ec, ← el, append-nil text)
      (record {
        call = t;
        same_closed = same.same_closed;
        line = subst (λ o. (o ≡ some f) ⊎ (o ≡ none)) (sym same.same_line) h;
        keeps = flush-Keeps text l k;
      })
advance-IsKept f text flushed c' l l' t h k e =
    let (ec, el) = pair_eq e in
    rw (← ec, ← el, append-nil text)
      (record { call = tt; same_closed = refl; line = inr refl; keeps = k })
advance-IsKept f text returned c' l l' t h k e =
    let (ec, el) = pair_eq e in
    rw (← ec, ← el, append-nil text) (record { call = tt; same_closed = refl; line = h; keeps = k })

-- What is true of the log and its calls, whatever happened.
pub record IsSound (f : AppendFunc) (text : Bytes) (st : System) : Type 0 where
  pub calls : All (IsTrue f st.log.closed) st.calls
  pub line : HasLine f st.log
  pub keeps : Keeps text st.log

same-IsSound :
    (f : AppendFunc) (text : Bytes) (st : System) (l : AccessLog)
    → IsSound f text st
    → l.append_line ≡ st.log.append_line
    → l.closed ≡ st.log.closed
    → Keeps text l
    → IsSound f (text ++ []) (record st { log = l })
same-IsSound f text st l v a c k = rw (append-nil text) (record {
  calls = subst (λ b. All (IsTrue f b) st.calls) (sym c) v.calls;
  line = subst (λ o. (o ≡ some f) ⊎ (o ≡ none)) (sym a) v.line;
  keeps = k;
})

go_on-IsSound :
    (f : AppendFunc) (text : Bytes) (i : ℕ) (st st' : System)
    → IsSound f text st
    → go_on i st ≡ some st'
    → IsSound f (text ++ written_by f (get_elem? st.calls i)) st'
unfolding go_on
go_on-IsSound f text i st st' v e = elim (Option-cases (get_elem? st.calls i)) [
  | inl n ↦
      rw (n, ← eq_of_some (rw (n, go_on) at e)) (same-IsSound f text st st.log v refl refl v.keeps)
  | inr (c, n) ↦ elim (Option-cases (advance c st.log)) [
    | inl a ↦ cc (rw (n, a, go_on) at e)
    | inr ((c', l), a) ↦
        let k =
          advance-IsKept f text c c' st.log l
            (All-get (IsTrue f st.log.closed) st.calls i n v.calls) v.line v.keeps a in
        rw (n, ← eq_of_some (rw (n, a, go_on) at e))
          (record {
            calls =
                subst (λ b. All (IsTrue f b) (set st.calls i c')) (sym k.same_closed)
                  (All-set (IsTrue f st.log.closed) st.calls i c' k.call v.calls);
            line = k.line;
            keeps = k.keeps;
          })
  ]
]

begin_log-IsSound :
    (f : AppendFunc) (text : Bytes) (ctx : Context) (st : System)
    → IsSound f text st
    → IsSound f text (begin_log ctx st)
unfolding begin_log
begin_log-IsSound f text ctx st v =
    if_cases (IsSound f text) st.log.closed _ _ (λ q. v)
      (λ q. record {
        calls = All-append (IsTrue f st.log.closed) st.calls (checked ctx ∷ []) v.calls (tt, tt);
        line = v.line;
        keeps = v.keeps;
      })

begin_close-IsSound :
    (f : AppendFunc) (text : Bytes) (st : System)
    → IsSound f text st
    → IsSound f text (begin_close st)
unfolding begin_close
begin_close-IsSound f text st v =
    if_cases (IsSound f text) st.log.closed _ _ (λ q. v)
      (λ q. record {
        calls =
            All-append (IsTrue f true) st.calls (marked ∷ [])
              (All-closed f st.log.closed st.calls v.calls) (refl, tt);
        line = v.line;
        keeps = v.keeps;
      })

pub next-IsSound :
    (f : AppendFunc) (text : Bytes) (e : Event) (st st' : System)
    → IsSound f text st
    → next e st ≡ some st'
    → IsSound f (text ++ line_at f e st) st'
unfolding next
next-IsSound f text (calls_log ctx) st st' v h =
    rw (← eq_of_some h, append-nil text) (begin_log-IsSound f text ctx st v)
next-IsSound f text calls_close st st' v h =
    rw (← eq_of_some h, append-nil text) (begin_close-IsSound f text st v)
next-IsSound f text (goes_on i) st st' v h = go_on-IsSound f text i st st' v h
next-IsSound f text ticks st st' v h =
    let same = flush-IsSetUp st.log in
    rw (← eq_of_some h) (
      same-IsSound f text st (flush st.log) v same.same_line same.same_closed
        (flush-Keeps text st.log v.keeps))
next-IsSound f text (rotates fails) st st' v h =
    let same = rotate-IsSetUp fails st.log in
    rw (← eq_of_some h) (
      same-IsSound f text st (rotate fails st.log).0 v same.same_line same.same_closed
        (rotate-Keeps fails text st.log v.keeps))
next-IsSound f text (rotates_shared fails) st st' v h = rw (← eq_of_some h) (
    same-IsSound f text st (record st.log { rotator = rotate_out fails st.log.rotator }) v refl refl
      (rotate_out-Keeps fails text st.log v.keeps))

pub run_calls-IsSound :
    (f : AppendFunc) (text : Bytes) (es : List Event) (st st' : System)
    → IsSound f text st
    → run_calls es st ≡ some st'
    → IsSound f (text ++ written f es st) st'
unfolding run_calls written
run_calls-IsSound f text [] st st' v h = rw (← eq_of_some h, append-nil text) v
run_calls-IsSound f text (e ∷ es) st st' v h = elim (Option-cases (next e st)) [
  | inl n ↦ cc (rw (n, run_calls) at h)
  | inr (m, n) ↦
      rw (n, written, ← append_assoc text (line_at f e st) (written f es m))
        (run_calls-IsSound f (text ++ line_at f e st) es m st' (next-IsSound f text e st m v n)
          (rw (n, run_calls) at h))
]
