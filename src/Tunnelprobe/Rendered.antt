-- ===== src/Tunnelprobe/Rendered.antt =====
-- The probe's client on the configuration that RenderRU renders.
use rdda.Common.{List, [], ◌∷◌, Str, str_instance}
use rdda.Singboxconf.Nodes
use rdda.State.Clients.{Client}
use rdda.State.Config.{Config}
use rdda.Tunnelprobe

uuids : List Client → List Str
uuids [] = []
uuids (c ∷ cs) = c.uuid ∷ uuids cs
