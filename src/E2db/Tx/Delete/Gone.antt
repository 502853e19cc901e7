-- ===== src/E2db/Tx/Delete/Gone.antt =====
-- What a deletion by primary key leaves behind (`Delete` of pkg/e2db/tx.go).
use e2d.E2db.Table.{Table}
use e2d.Client
use e2d.Client.{Etcd, Op, M, pure, lift, bind, continue}
