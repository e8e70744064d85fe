-- ===== src/Wire/Running.antt =====
-- A node runs without an exception on whatever the server decodes: `HandleRpcs` of lib/comms/server.cc
-- and `RunProtocol` of lib/bracha/node.cc.
use cosicoin.Base.{nat_eq, list_eq}
use cosicoin.Comms.Server.{Server}
use cosicoin.Host.{Host}
use cosicoin.Blockchain.Message.{Message}
use cosicoin.Config.Settings.{Settings}
use cosicoin.Bracha.Node.{Node}
use cosicoin.Blockchain.Transaction.{Transaction}
