-- ===== src/Routing/Ptp/Paired/Run.antt =====
-- What the router is told of the adjacency, while the circuit runs and at the end.
use cppdecnet.Routing.Ptp
use cppdecnet.Routing.Ptp.States
use cppdecnet.Routing.Ptp.Paired.{Paired}
