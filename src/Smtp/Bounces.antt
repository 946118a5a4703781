-- ===== src/Smtp/Bounces.antt =====
-- What a bounce that comes in makes of the addresses it names.
use lightr.Prelude.{Text, ◌≡◌, true}
use lightr.Bounce

-- The bounce is permanent and names the address.
abbrev pub Names : Text → Bounce.Bounce → Type 0
Names a b = (Bounce.should_suppress b.bounce_type ≡ true) × (b.recipient ≡ a)
