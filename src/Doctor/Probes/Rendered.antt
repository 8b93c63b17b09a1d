-- ===== src/Doctor/Probes/Rendered.antt =====
-- The destination that the doctor of an RU node finds is the one that RenderRU has put in its configuration.
use rdda.Common.{str_instance}
use rdda.Doctor.Probes
use rdda.State.Config.{Config}
