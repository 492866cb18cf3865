-- ===== src/Target/Stream/Colors.antt =====
-- The color of a severity, and the lock that a target of another type keeps (src/target/stream.c).
use stumpless.World.{World}
use stumpless.Target.{Target}
