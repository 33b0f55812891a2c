-- ===== src/Engine/Steps.antt =====
-- How the ways of composing coroutines keep a relation between the engine before and after.
use gofixmsg.Prelude.{◌≡◌, Bool, true, false, if◌then◌else◌, refl}
use gofixmsg.Engine.{Engine, Act, go_on, rescue}

module _ (R : Engine → Engine → Type 0) where
  pub if_rule :
      (e : Engine) (b : Bool) (x y : Engine × Bool) → R e x.0 → R e y.0 → R e (if b then x else y).0
  if_rule e true x y h k = h
  if_rule e false x y h k = k

  -- The branches may use their test.
  pub test_rule :
      (e : Engine) (b : Bool) (x y : Engine × Bool)
      → (b ≡ true → R e x.0)
      → (b ≡ false → R e y.0)
      → R e (if b then x else y).0
  test_rule e true x y h k = h refl
  test_rule e false x y h k = k refl

module _ (R : Engine → Engine → Type 0) (trans : (a b c : Engine) → R a b → R b c → R a c) where
  pub go_on_rule :
      (e : Engine) (r : Engine × Bool) (k : Act)
      → R e r.0
      → ((s : Engine) → R s (k s).0)
      → R e (go_on r k).0
  go_on_rule e (s, true) k h f = h
  go_on_rule e (s, false) k h f = trans e s (k s).0 h (f s)

  pub rescue_rule :
      (e : Engine) (r : Engine × Bool) (k : Act)
      → R e r.0
      → ((s : Engine) → R s (k s).0)
      → R e (rescue r k).0
  rescue_rule e (s, false) k h f = h
  rescue_rule e (s, true) k h f = trans e s (k s).0 h (f s)
