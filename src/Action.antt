-- ===== src/Action.antt =====
-- Functions that change a state through `&mut` and may return an error by `?`. What they changed
-- before the error stays changed.
use noise_tunnel_rs.Error.{Result, ok, err}
use noise_tunnel_rs.Base.{◌≡◌, refl}

abbrev pub Action : Type 0 → Type 0 → Type 0
Action S A = S → S × Result A

-- What follows a call: it goes on from the new state, or passes the error on.
abbrev pub and_then : {S A B : Type 0} → S × Result A → (A → Action S B) → S × Result B
and_then (s, ok a) f = f a s
and_then (s, err e) f = (s, err e)

infixl 5 ◌>>=◌ ◌>>◌
abbrev pub ◌>>=◌ : {S A B : Type 0} → Action S A → (A → Action S B) → Action S B
◌>>=◌ m f s = and_then (m s) f

abbrev pub ◌>>◌ : {S B : Type 0} → Action S (Unit {0}) → Action S B → Action S B
m >> k = m >>= λ _. k

-- A fallible call that does not touch the state.
abbrev pub lift : {S A : Type 0} → Result A → Action S A
lift r s = (s, r)

abbrev pub pure : {S A : Type 0} → A → Action S A
pure a s = (s, ok a)

-- `self` as it stands, and an assignment to it.
abbrev pub get_self : {S : Type 0} → Action S S
get_self s = (s, ok s)

abbrev pub set_self : {S : Type 0} → S → Action S (Unit {0})
set_self s' s = (s', ok tt)

-- A sequence succeeds only if its first part does, and then its second part from there.
pub and_then-eq-ok :
    {S A B : Type 0} (r : S × Result A) (f : A → Action S B) {s' : S} {b : B}
    → and_then r f ≡ (s', ok b)
    → (s1 : S) × (a : A) × (r ≡ (s1, ok a)) × (f a s1 ≡ (s', ok b))
and_then-eq-ok (s1, ok a) f h = (s1, a, refl, h)
and_then-eq-ok (s1, err e) f h = cc

-- A method of one field of the state.
abbrev pub focus : {S T A : Type 0} → (S → T) → (T → S → S) → Action T A → Action S A
focus get put act s = let r = act (get s) in (put r.0 s, r.1)
