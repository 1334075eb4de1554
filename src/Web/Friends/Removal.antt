-- ===== src/Web/Friends/Removal.antt =====
-- apps/web/app/api/friends/route.ts: DELETE, and who can lift a block with it.
use vortex_reloaded.Base.{Bool}
