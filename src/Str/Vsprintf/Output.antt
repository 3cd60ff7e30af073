-- ===== src/Str/Vsprintf/Output.antt =====
-- vsprintf prints what the fields of a format stand for.
use evos.Base.{List}
