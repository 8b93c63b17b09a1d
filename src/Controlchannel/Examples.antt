-- ===== src/Controlchannel/Examples.antt =====
-- A host that was pasted with its scheme and path.
use rdda.Common.{Str, codes}
use rdda.Common.Results.{Result, ok}

abbrev sub_url : Str → Result Str Str
sub_url s = ok (codes "sub.example.com")
