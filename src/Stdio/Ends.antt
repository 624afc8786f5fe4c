-- ===== src/Stdio/Ends.antt =====
-- When a row of calls of putstr and printf comes to its end: it depends on the formats and the kinds
-- of the arguments, not on their values.
use toast_os.Prelude.{ℕ, ◌≡◌, refl, some, Option-cases, List, [], ◌∷◌, ◌++◌, inl, inr}
use toast_os.Stdio.{printf}
use toast_os.Stdio.Total.{blank, printf-blank}
use toast_os.Stdio.Calls.{Call, put, format, run_call, prints}

abbrev pub Ends : List Call → Type 0
Ends cs = (out : List ℕ) × (prints cs ≡ some out)

-- The calls with the values of their arguments taken out.
abbrev pub blank_calls : List Call → List Call
blank_calls [] = []
blank_calls (put s ∷ cs) = put s ∷ blank_calls cs
blank_calls (format fmt args ∷ cs) = format fmt (blank args) ∷ blank_calls cs

pub Ends-cons :
    (c : Call) (cs : List Call) {out : List ℕ} → run_call c ≡ some out → Ends cs → Ends (c ∷ cs)
unfolding prints
Ends-cons c cs {out} e (rest, e') = rw (e, e') (out ++ rest, refl)

pub Ends-append : (cs ds : List Call) → Ends cs → Ends ds → Ends (cs ++ ds)
unfolding prints
Ends-append [] ds h more = more
Ends-append (c ∷ cs) ds (out, h) more = elim (Option-cases (run_call c)) [
  | inl e ↦ cc (rw e at h)
  | inr (o, e) ↦ elim (Option-cases (prints cs)) [
    | inl e' ↦ cc (rw (e, e') at h)
    | inr (r, e') ↦ Ends-cons c (cs ++ ds) e (Ends-append cs ds (r, e') more)
  ]
]

pub Ends-blank : (cs : List Call) → Ends (blank_calls cs) → Ends cs
unfolding prints run_call
Ends-blank [] h = h
Ends-blank (put s ∷ cs) (out, h) = elim (Option-cases (prints (blank_calls cs))) [
  | inl e ↦ cc (rw e at h)
  | inr (r, e) ↦ Ends-cons (put s) cs refl (Ends-blank cs (r, e))
]
Ends-blank (format fmt args ∷ cs) (out, h) = elim (Option-cases (printf fmt (blank args))) [
  | inl e ↦ cc (rw e at h)
  | inr (o, e) ↦ elim (Option-cases (prints (blank_calls cs))) [
    | inl e' ↦ cc (rw (e, e') at h)
    | inr (r, e') ↦
        Ends-cons (format fmt args) cs (printf-blank fmt args e).1 (Ends-blank cs (r, e'))
  ]
]

pub Ends-put : (s : List ℕ) (cs : List Call) → Ends cs → Ends (put s ∷ cs)
unfolding run_call
Ends-put s cs h = Ends-cons (put s) cs refl h

pub Ends-nil : Ends []
unfolding prints
Ends-nil = ([], refl)
