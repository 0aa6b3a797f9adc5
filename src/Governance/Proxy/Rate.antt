-- ===== src/Governance/Proxy/Rate.antt =====
-- owlclaw/governance/proxy.py: `_check_rate_limit` over a sequence of calls of one caller.
use owlclaw.Base.{
  All, All-append, All-keep_if, Bool, Bool-cases, List, Option, String, [], ap, arith, false,
  if◌then◌else◌, inl, inr, keep_if, keep_if-append, leb, length, length-append, ltb, none, refl,
  some, string_eq, string_pair_eq, sym, true, ℕ, ◌++◌, ◌+◌, ◌∙◌, ◌∷◌, ◌≡◌, ◌≤◌,
}
use owlclaw.Base.Dict.{get, get-put_self}
use owlclaw.Base.Int.{leb_ℤ, pos}
use owlclaw.Governance.Proxy.{
  GovernanceProxy, Refusal, check_rate_limit, drop_old, qps_of, rejection, take_slot,
  window_or_empty,
}
use owlclaw.Security.RiskGate.{second}

-- Within one second before `now`.
abbrev pub is_recent : ℕ → ℕ → Bool
is_recent now t = leb now (t + second)

abbrev pub Ascending : List ℕ → Type 0
Ascending [] = Unit
Ascending (t ∷ times) = All (λ u. t ≤ u) times × Ascending times

-- Times that do not go back, from `start` on, and the last of them.
abbrev pub Follows : ℕ → List ℕ → Type 0
Follows start [] = Unit
Follows start (t ∷ times) = (start ≤ t) × Follows t times

abbrev pub last_of : ℕ → List ℕ → ℕ
last_of start [] = start
last_of start (t ∷ times) = last_of t times

abbrev pub note : Option Refusal → ℕ → List ℕ → List ℕ
note none now admitted = admitted ++ now ∷ []
note (some refusal) now admitted = admitted

-- The check at each of the times, with the times that it let through.
unfoldable pub admit_all : GovernanceProxy → String → List ℕ → List ℕ → GovernanceProxy × List ℕ
unfolding check_rate_limit
admit_all p caller [] admitted = (p, admitted)
admit_all p caller (now ∷ times) admitted =
    let (verdict, p') = check_rate_limit p caller now in
    admit_all p' caller times (note verdict now admitted)

keep_if_all :
    (q : ℕ → Bool) (times : List ℕ) → All (λ t. q t ≡ true) times → keep_if q times ≡ times
keep_if_all q [] h = refl
keep_if_all q (t ∷ times) (here, h) = rw (here, keep_if_all q times h) refl

recent_later :
    (now t : ℕ) (times : List ℕ)
    → is_recent now t ≡ true
    → All (λ u. t ≤ u) times
    → All (λ u. is_recent now u ≡ true) times
recent_later now t [] h later = tt
recent_later now t (u ∷ times) h (here, later) = (ground arith, recent_later now t times h later)

drop_old-keep_if :
    (now : ℕ) (window : List ℕ)
    → Ascending window
    → drop_old now window ≡ keep_if (is_recent now) window
unfolding drop_old
drop_old-keep_if now [] h = refl
drop_old-keep_if now (t ∷ window) (later, h) = elim (Bool-cases (is_recent now t)) [
  | inl recent ↦
      let young : ltb (t + second) now ≡ false = ground arith in
      rw
        (young, recent, keep_if_all (is_recent now) window (recent_later now t window recent later))
        refl
  | inr old ↦
      let gone : ltb (t + second) now ≡ true = ground arith in
      rw (gone, old) (drop_old-keep_if now window h)
]

Ascending-keep_if : (q : ℕ → Bool) (times : List ℕ) → Ascending times → Ascending (keep_if q times)
Ascending-keep_if q [] h = tt
Ascending-keep_if q (t ∷ times) (later, h) = elim (Bool-cases (q t)) [
  | inl kept ↦ rw kept (All-keep_if (λ u. t ≤ u) q times later, Ascending-keep_if q times h)
  | inr dropped ↦ rw dropped (Ascending-keep_if q times h)
]

Ascending-append :
    (now : ℕ) (times : List ℕ)
    → Ascending times
    → All (λ t. t ≤ now) times
    → Ascending (times ++ now ∷ [])
Ascending-append now [] h before = (tt, tt)
Ascending-append now (t ∷ times) (later, h) (here, before) =
    (All-append (λ u. t ≤ u) times (now ∷ []) later (here, tt), Ascending-append now times h before)

All-later :
    (last now : ℕ) (times : List ℕ)
    → last ≤ now
    → All (λ t. t ≤ last) times
    → All (λ t. t ≤ now) times
All-later last now [] h before = tt
All-later last now (t ∷ times) h (here, before) = (omega arith, All-later last now times h before)

-- What was recent at a later time was recent before.
keep_if_later :
    (last now : ℕ) (times : List ℕ)
    → last ≤ now
    → keep_if (is_recent now) (keep_if (is_recent last) times) ≡ keep_if (is_recent now) times
keep_if_later last now [] h = refl
keep_if_later last now (t ∷ times) h = elim (Bool-cases (is_recent last t)) [
  | inl recent ↦
      rw recent
        (ap (λ rest. if is_recent now t then t ∷ rest else rest) (keep_if_later last now times h))
  | inr old ↦
      let older : is_recent now t ≡ false = ground arith in
      rw (old, older) (keep_if_later last now times h)
]

-- The window is what was admitted in the last second, in order, and no more than allowed.
abbrev pub Holds : ℕ → ℕ → List ℕ → List ℕ → Type 0
Holds most last window admitted =
    (window ≡ keep_if (is_recent last) admitted)
    × Ascending admitted
    × All (λ t. t ≤ last) admitted
    × (length window ≤ most)

window-drop_old :
    (last now : ℕ) (window admitted : List ℕ)
    → last ≤ now
    → window ≡ keep_if (is_recent last) admitted
    → Ascending admitted
    → drop_old now window ≡ keep_if (is_recent now) admitted
window-drop_old last now window admitted h same ascends =
    ap (λ w. drop_old now w) same
    ∙ drop_old-keep_if now (keep_if (is_recent last) admitted)
        (Ascending-keep_if (is_recent last) admitted ascends)
    ∙ keep_if_later last now admitted h

length-drop_old-le : (now : ℕ) (window : List ℕ) → length (drop_old now window) ≤ length window
unfolding drop_old
length-drop_old-le now [] = omega arith
length-drop_old-le now (t ∷ window) = ground (arith, length-drop_old-le now window)

module _ (most last now : ℕ) (window admitted : List ℕ) where
  full_slot :
      (w' : List ℕ)
      → last ≤ now
      → w' ≡ keep_if (is_recent now) admitted
      → length w' ≤ length window
      → Holds most last window admitted
      → Holds most now w' admitted
  full_slot w' h same shorter (_, ascends, before, few) =
      (same, ascends, All-later last now admitted h before, omega arith)

  free_slot :
      (w' : List ℕ)
      → last ≤ now
      → w' ≡ keep_if (is_recent now) admitted
      → leb_ℤ (pos most) (pos (length w')) ≡ false
      → Holds most last window admitted
      → Holds most now (w' ++ now ∷ []) (admitted ++ now ∷ [])
  free_slot w' h same room (_, ascends, before, few) =
      let later = All-later last now admitted h before in
      let recent : is_recent now now ≡ true = ground arith in
      let added : keep_if (is_recent now) (now ∷ []) ≡ now ∷ [] = rw recent refl in
      (
        ap (λ w. w ++ now ∷ []) same
            ∙ ap (λ rest. keep_if (is_recent now) admitted ++ rest) (sym added)
            ∙ sym (keep_if-append (is_recent now) admitted (now ∷ [])),
        Ascending-append now admitted ascends later,
        All-append (λ t. t ≤ now) admitted (now ∷ []) later (omega arith, tt),
        ground (arith, length-append w' (now ∷ [])),
      )

  take_slot-Holds :
      last ≤ now
      → Holds most last window admitted
      → let (free, w') = take_slot (pos most) now window in
        Holds most now w'
          (note (if free then none else some (rejection "rate_limited")) now admitted)
  unfolding take_slot
  take_slot-Holds h k =
      let kept = drop_old now window in
      let same = window-drop_old last now window admitted h k.0 k.1 in
      elim (Bool-cases (leb_ℤ (pos most) (pos (length kept)))) [
        | inl full ↦ rw full (full_slot kept h same (length-drop_old-le now window) k)
        | inr room ↦ rw room (free_slot kept h same room k)
      ]

abbrev pub window_of : GovernanceProxy → String → List ℕ
window_of p caller = window_or_empty (get p.rate_windows caller)

check_rate_limit-Holds :
    (most last now : ℕ) (p : GovernanceProxy) (caller : String) (admitted : List ℕ)
    → qps_of p caller ≡ pos most
    → last ≤ now
    → Holds most last (window_of p caller) admitted
    → let (verdict, p') = check_rate_limit p caller now in
      Holds most now (window_of p' caller) (note verdict now admitted)
      × (qps_of p' caller ≡ pos most)
unfolding check_rate_limit
check_rate_limit-Holds most last now p caller admitted limit h k =
    let slot = take_slot (pos most) now (window_of p caller) in
    rw (limit, get-put_self p.rate_windows caller slot.1)
      (take_slot-Holds most last now (window_of p caller) admitted h k, refl)

admit_all-Holds :
    (most last : ℕ) (times : List ℕ) (p : GovernanceProxy) (caller : String) (admitted : List ℕ)
    → qps_of p caller ≡ pos most
    → Follows last times
    → Holds most last (window_of p caller) admitted
    → let (p', admitted') = admit_all p caller times admitted in
      Holds most (last_of last times) (window_of p' caller) admitted'
unfolding admit_all
admit_all-Holds most last [] p caller admitted limit order h = h
admit_all-Holds most last (now ∷ times) p caller admitted limit (before, order) h =
    let run = check_rate_limit p caller now in
    let (kept, limit') = check_rate_limit-Holds most last now p caller admitted limit before h in
    admit_all-Holds most now times run.1 caller (note run.0 now admitted) limit' order kept

-- For a caller without a window and with the limit `most`, checks at times that do not go back let at
-- most `most` calls through in the second up to the last check, whose window holds just these.
pub admit_all-last_second :
    (most start : ℕ) (times : List ℕ) (p : GovernanceProxy) (caller : String)
    → qps_of p caller ≡ pos most
    → window_of p caller ≡ []
    → Follows start times
    → let (p', admitted) = admit_all p caller times [] in
      let recent = keep_if (is_recent (last_of start times)) admitted in
      (window_of p' caller ≡ recent) × (length recent ≤ most)
admit_all-last_second most start times p caller limit new order =
    let (same, _, _, few) =
      admit_all-Holds most start times p caller [] limit order
        (rw new (refl, tt, tt, omega arith)) in
    (same, rw (← same) few)
