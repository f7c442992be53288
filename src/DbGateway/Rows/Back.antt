-- ===== src/DbGateway/Rows/Back.antt =====
-- projects/dbgateway/db_gateway.cpp: a row of MySQL on its way to Redis and back.
use qclib.Base.{List, ◌++◌}
use qclib.Names.{Name}
use qclib.DbGateway.{bytes}
use qclib.DbGateway.Sql.{FieldInfo, where_key}
use qclib.DbGateway.Sql.Text.{commas}
use qclib.DbGateway.Rows.Saved.{assignments}

-- UPDATE of a table by the columns of a row and the key.
abbrev pub update_text : Name → Name → Name → List FieldInfo → List Name → Name
update_text tblname keyname key fs vs =
    bytes "update "
    ++ (tblname
        ++ (bytes " set " ++ (commas (assignments fs vs) ++ (bytes " " ++ where_key keyname key))))
