-- ===== src/Cluster/Session/Results.antt =====
-- What the server of SysOpy/lab10/src/zad1 prints are the results of lines that it has sent.
use semestr.Cluster.Session.{Session}
