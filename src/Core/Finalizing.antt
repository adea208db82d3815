-- ===== src/Core/Finalizing.antt =====
-- An invitation file that nodes were initialized from comes back to Core::finalize_offline_invitation.
use distadm.Core.{Core}
