-- ===== src/Tests/Tools.antt =====
-- A tool bridge: python/pydeno/_tools.py at concrete inputs.
use pydeno.Prelude.{
  subst, sym, ℕ, zero, suc, ◌≤◌, max, ap, if◌then◌else◌, ◌+◌, ◌-◌, ◌≡◌, refl, true, false, not,
  ◌&&◌, ◌||◌, min, none, some, List, [], ◌∷◌, Option, ok, err, codes, arith, ◌==◌, ==_iff, All,
  Bool,
}
use pydeno.Tools.Names.{value_error, type_error, text, other, check_name}
use pydeno.Tools.Bridge.{ToolBridge, raise}
use pydeno.Tools.Budget.{call_all, call_all_exact}
use pydeno.Tools.Runtime.{Registry, mem}
use pydeno.Tools.Attach.{attach}

names :
    (check_name (text (codes "get_weather")) ≡ ok (codes "get_weather"))
    × (check_name (text (codes "2fast")) ≡ err value_error)
    × (check_name (text (codes "constructor")) ≡ err value_error)
    × (check_name other ≡ err type_error)
unfolding check_name
names = (refl, refl, refl, refl)

-- Tools are numbers here, and a call returns its number.
abbrev bridge : ToolBridge ℕ
bridge = record {
  tools = (codes "a", 1) ∷ (codes "b", 2) ∷ [];
  namespace = none;
  max_calls = some 2;
  on_exhausted = raise;
  calls_made = 0;
}

abbrev run : ℕ → ℕ
run n = n

call_all_exact_example :
    ((call_all run bridge (1 ∷ 2 ∷ 1 ∷ [])).0 ≡ min 3 (2 - 0))
    × ((call_all run bridge (1 ∷ 2 ∷ 1 ∷ [])).1 ≡ record bridge { calls_made = 0 + min 3 (2 - 0) })
call_all_exact_example = call_all_exact run bridge 2 (1 ∷ 2 ∷ 1 ∷ []) refl (omega arith)

-- A registry whose runtime is the list of the tokens that can be called, with their tools, the last one
-- first. It refuses the function 0.
abbrev Live : Type 0
Live = List (ℕ × (List ℕ × ℕ))

unfoldable new_token : Live → ℕ
new_token [] = 0
new_token ((t, f) ∷ ts) = max (suc t) (new_token ts)

abbrev is_live : ℕ → Live → Bool
is_live u [] = false
is_live u ((t, f) ∷ ts) = u == t || is_live u ts

abbrev tool_of : ℕ → Live → Option (List ℕ × ℕ)
tool_of u [] = none
tool_of u ((t, f) ∷ ts) = let rest = tool_of u ts in if u == t then some f else rest

unfoldable remove : ℕ → Live → Live
remove t [] = []
remove t ((u, f) ∷ us) = let rest = remove t us in if u == t then rest else (u, f) ∷ rest

unfoldable bind_one : List ℕ → ℕ → Live → Option (ℕ × Live)
unfolding new_token
bind_one n zero r = none
bind_one n (suc f) r = some (new_token r, (new_token r, (n, suc f)) ∷ r)

unfoldable bind_all : List (List ℕ × ℕ) → Live → List ℕ × Live
unfolding new_token
bind_all [] r = ([], r)
bind_all (f ∷ fs) r = let (ts, r') = bind_all fs r in (new_token r' ∷ ts, (new_token r', f) ∷ r')

is_live-new_token : (r : Live) (t : ℕ) → new_token r ≤ t → is_live t r ≡ false
unfolding new_token
is_live-new_token [] t h = refl
is_live-new_token ((u, f) ∷ us) t h =
    ground (arith, is_live-new_token us t (omega arith), ==_iff t u)

is_live-remove : (t u : ℕ) (r : Live) → is_live u (remove t r) ≡ (is_live u r && not (u == t))
unfolding remove
is_live-remove t u [] = refl
is_live-remove t u ((v, f) ∷ vs) =
    ground (arith, is_live-remove t u vs, ==_iff v t, ==_iff u v, ==_iff u t)

is_live-bind_all :
    (fs : List (List ℕ × ℕ)) (r : Live) (u : ℕ)
    → is_live u (bind_all fs r).1 ≡ (mem u (bind_all fs r).0 || is_live u r)
unfolding bind_all
is_live-bind_all [] r u = refl
is_live-bind_all (f ∷ fs) r u = ground (arith, is_live-bind_all fs r u)

bind_all-fresh :
    (fs : List (List ℕ × ℕ)) (r : Live) (u : ℕ)
    → mem u (bind_all fs r).0 ≡ true
    → is_live u r ≡ false
unfolding bind_all
bind_all-fresh [] r u h = cc
bind_all-fresh (f ∷ fs) r u h =
    let r' = (bind_all fs r).1 in
    ground (
      arith,
      bind_all-fresh fs r u,
      is_live-bind_all fs r u,
      is_live-new_token r' (new_token r') (omega arith),
      ==_iff u (new_token r'),
    )

-- A tool that was bound before is still there behind a new token.
abbrev HasTool : List ℕ → Live → List ℕ × ℕ → Type 0
HasTool ts r f = (t : ℕ) × (mem t ts ≡ true) × (tool_of t r ≡ some f)

HasTool-bind :
    (f g : List ℕ × ℕ) (ts : List ℕ) (r : Live) (fs : List (List ℕ × ℕ))
    → (mem (new_token r) ts ≡ true → is_live (new_token r) r ≡ true)
    → All (HasTool ts r) fs
    → All (HasTool (new_token r ∷ ts) ((new_token r, g) ∷ r)) fs
HasTool-bind f g ts r [] live h = tt
HasTool-bind f g ts r (x ∷ xs) live ((t, m, e), rest) = (
  (
    t,
    ground (arith, m),
    ground (
      arith,
      e,
      m,
      live,
      is_live-new_token r (new_token r) (omega arith),
      ==_iff t (new_token r),
    ),
  ),
  HasTool-bind f g ts r xs live rest,
)

HasTool-bind_all :
    (fs : List (List ℕ × ℕ)) (r : Live) → All (HasTool (bind_all fs r).0 (bind_all fs r).1) fs
unfolding bind_all
HasTool-bind_all [] r = tt
HasTool-bind_all (f ∷ fs) r =
    let r' = (bind_all fs r).1 in
    let ts = (bind_all fs r).0 in
    (
      (
        new_token r',
        ground (arith, ==_iff (new_token r') (new_token r')),
        ground (arith, ==_iff (new_token r') (new_token r')),
      ),
      HasTool-bind f f ts r' fs (λ m. ground (arith, m, is_live-bind_all fs r (new_token r')))
          (HasTool-bind_all fs r),
    )

of_some : {A : Type 0} (x : A) {y : A} → some x ≡ some y → x ≡ y
of_some x h = ap (λ o. elim o [ none ↦ x | some z ↦ z ]) h

-- What holds of a runtime and its new token, if it holds of those that `bind_one` makes.
bind_one-some :
    (P : ℕ × Live → Type 0) (n : List ℕ) (f : ℕ) (r : Live) (t : ℕ) (r' : Live)
    → bind_one n f r ≡ some (t, r')
    → P (new_token r, (new_token r, (n, f)) ∷ r)
    → P (t, r')
unfolding bind_one
bind_one-some P n zero r t r' h p = cc
bind_one-some P n (suc f) r t r' h p =
    subst P (of_some (new_token r, (new_token r, (n, suc f)) ∷ r) h) p

abbrev registry : Registry ℕ
registry = record {
  Runtime = Live;
  live = λ r t. is_live t r;
  tool = λ r t. tool_of t r;
  bind_function = λ n f r. bind_one n f r;
  bind_object = λ n fs r. some (bind_all fs r);
  revoke_op = λ t r. (is_live t r, remove t r);
  bind-fresh = λ n f r t r' h.
      bind_one-some (λ p. is_live p.0 r ≡ false) n f r t r' h
        (is_live-new_token r (new_token r) (omega arith));
  live-bind = λ n f r t r' h u.
      bind_one-some (λ p. is_live u p.1 ≡ (u == p.0 || is_live u r)) n f r t r' h refl;
  tool-bind = λ n f r t r' h u.
      bind_one-some (λ p. tool_of u p.1 ≡ (if u == p.0 then some (n, f) else tool_of u r)) n f r t
        r' h refl;
  bind_object-fresh = λ n fs r ts r' h u k.
      bind_all-fresh fs r u (subst (λ p. mem u p.0 ≡ true) (sym (of_some (bind_all fs r) h)) k);
  live-bind_object = λ n fs r ts r' h u.
      subst (λ p. is_live u p.1 ≡ (mem u p.0 || is_live u r)) (of_some (bind_all fs r) h)
        (is_live-bind_all fs r u);
  tool-bind_object = λ n fs r ts r' h.
      subst (λ p. All (HasTool p.0 p.1) fs) (of_some (bind_all fs r) h) (HasTool-bind_all fs r);
  live-revoke = λ t r u. is_live-remove t u r;
}

-- The second tool cannot be bound, so the first is revoked.
abbrev broken : ToolBridge ℕ
broken = record bridge { tools = (codes "a", 1) ∷ (codes "b", 0) ∷ [] }

-- A runtime with one tool of its own.
abbrev before : Live
before = (7, (codes "z", 3)) ∷ []

attached :
    (attach registry bridge (7 ∷ []) before
      ≡ (ok tt, 7 ∷ 8 ∷ 9 ∷ [], (9, (codes "b", 2)) ∷ (8, (codes "a", 1)) ∷ before))
    × (attach registry broken (7 ∷ []) before ≡ (err tt, 7 ∷ [], before))
unfolding attach remove new_token bind_one
attached = (refl, refl)
