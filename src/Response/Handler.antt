-- ===== src/Response/Handler.antt =====
-- middleware/error.go: the error handler, and what it answers.
use ais_pkg.Prelude.{
  ◌≡◌, refl, inl, inr, false, not, Option, some, none, is_empty, if◌then◌else◌, Bool-cases,
}
use ais_pkg.Prelude.Text.{Text}
use ais_pkg.Prelude.Int.{ℤ, pos}
use ais_pkg.Errors.Values.{GoError, biz_caused, wrapped, fiber}
use ais_pkg.Errors.Http.{HttpStatusConfig}
use ais_pkg.Response.Defs.{Sent, bare, error}

-- errors.As(err, &fiberErr): the code and the message of the first fiber.Error in the chain, which
-- goes on through the cause of a BizError.
unfoldable pub find_fiber : GoError → Option (ℤ × Text)
find_fiber (fiber c m) = some (c, m)
find_fiber (wrapped m e) = find_fiber e
find_fiber (biz_caused c m cause) = find_fiber cause
find_fiber _ = none

-- The message of a fiber.Error, or a text of the status where it is empty.
unfoldable pub fiber_message : (ℤ → Text) → ℤ → Text → Text
fiber_message status_text c m =
    if not (is_empty m)
    then m
    else if not (is_empty (status_text c))
    then status_text c
    else status_text (pos 500)

module _ {D : Type 0} where
  abbrev pub handled_error : (ℤ → Text) → HttpStatusConfig → GoError → Option (ℤ × Text) → Sent D
  handled_error status_text cfg e none = error status_text cfg (some e)
  handled_error status_text cfg e (some (c, m)) = bare c c (fiber_message status_text c m)

  -- NewErrorHandler, for an error that is not nil
  unfoldable pub error_handler : (ℤ → Text) → HttpStatusConfig → GoError → Sent D
  unfolding find_fiber fiber_message
  error_handler status_text cfg e = handled_error status_text cfg e (find_fiber e)

-- The message of an error is not empty, where the status 500 has a text.
fiber_message-ne :
    (status_text : ℤ → Text) (c : ℤ) (m : Text)
    → is_empty (status_text (pos 500)) ≡ false
    → is_empty (fiber_message status_text c m) ≡ false
unfolding fiber_message
fiber_message-ne status_text c m h = elim (Bool-cases (is_empty m)) [
  | inl e ↦ elim (Bool-cases (is_empty (status_text c))) [
    | inl k ↦ rw (e, k) h
    | inr k ↦ rw (e, k) k
  ]
  | inr e ↦ rw e e
]

handled_error-fiber :
    (D : Type 0) (status_text : ℤ → Text) (cfg : HttpStatusConfig) (e : GoError) (c : ℤ) (m : Text)
    (o : Option (ℤ × Text))
    → o ≡ some (c, m)
    → is_empty (status_text (pos 500)) ≡ false
    → ((handled_error {D = D} status_text cfg e o).status ≡ c)
      × (is_empty (handled_error {D = D} status_text cfg e o).body.msg ≡ false)
handled_error-fiber D status_text cfg e c m o found h =
    rw found (refl, fiber_message-ne status_text c m h)

-- A BizError whose cause has a fiber.Error in its chain is answered with the status of that one,
-- whatever its own code and message are, and with a message that is not empty, if the status 500
-- has a text.
pub error_handler-fiber :
    (D : Type 0) (status_text : ℤ → Text) (cfg : HttpStatusConfig) (e : GoError) (c : ℤ) (m : Text)
    (code : ℤ) (text : Text)
    → find_fiber e ≡ some (c, m)
    → is_empty (status_text (pos 500)) ≡ false
    → ((error_handler {D = D} status_text cfg (biz_caused code text e)).status ≡ c)
      × (is_empty (error_handler {D = D} status_text cfg (biz_caused code text e)).body.msg ≡ false)
unfolding error_handler find_fiber
error_handler-fiber D status_text cfg e c m code text found h =
    handled_error-fiber D status_text cfg (biz_caused code text e) c m (find_fiber e) found h
