-- ===== src/Provisioning/DeviceConfiguration/Returns/Starts.antt =====
-- The configuration of a server returns, on fuel for as many nested starts as there are answers left,
-- with two more for a default server and one for another.
use rust_rcs_client.Common.{
  ℕ, zero, suc, ◌+◌, ◌≤◌, ◌<◌, pos, negsuc, Bool, true, false, Option, none, some, arith, Bytes,
  length,
}
use rust_rcs_client.Provisioning.WapProvisioningDoc.{WapProvisioningDoc, AccessControlInfo}
use rust_rcs_client.Provisioning.DeviceConfiguration.{
  ConfigurationServer, Platform, World, Starting,
}
use rust_rcs_client.Provisioning.DeviceConfiguration.Start.{
  Found, stored_info, start_with, start_found, start_auto_config_for_server_inner,
  start_auto_config_for_server,
}
use rust_rcs_client.Provisioning.DeviceConfiguration.Returns.{
  Returns, returned, rank, AllReturn, handle_config_for_server-Returns,
}
use rust_rcs_client.Provisioning.DeviceConfiguration.Returns.Requests.{
  try_initial_http_request-Returns,
}

module _ {DateTime : Type 0} (platform : Platform DateTime) where
  module _ (self : Starting) (n : ℕ) (all : AllReturn self n) (server : ConfigurationServer)
      (access : Option AccessControlInfo) (msisdn : Option Bytes) (w : World)
      (h : rank server + length w.answers ≤ n) where
    start_with-Returns :
        (valid : Bool) (token : Option (Bytes × DateTime)) (doc : Option WapProvisioningDoc)
        → Returns
            (length w.answers)
            (start_with platform self server access msisdn valid token doc w)
    unfolding start_with
    start_with-Returns true token (some doc) =
        handle_config_for_server-Returns platform server access self n all msisdn doc w h
    start_with-Returns true token none =
        try_initial_http_request-Returns platform self n all server access msisdn (pos 0) token w h
    start_with-Returns false token doc =
        try_initial_http_request-Returns platform self n all server access msisdn (pos 0) token w h

    start_found-Returns :
        (found : Option (Found DateTime))
        → Returns (length w.answers) (start_found platform self server access msisdn found w)
    unfolding start_found
    start_found-Returns none =
        try_initial_http_request-Returns platform self n all server access msisdn (pos 0) none w h
    start_found-Returns (some (pos v, through, token, doc)) = start_with-Returns _ token doc
    start_found-Returns (some (negsuc v, through, token, doc)) = returned _ w (omega arith)

  -- Whatever is stored, where the network gives so many answers and then fails,
  -- `start_auto_config_for_server` comes to its end, which may be a panic on a time: the nested starts,
  -- of the servers that a document names and after a token is refused, go no deeper than the number of
  -- answers, with one more below a default server. It leaves no more answers than it found.
  pub start_auto_config_for_server-Returns :
      (f : ℕ) (server : ConfigurationServer) (access : Option AccessControlInfo)
      (msisdn : Option Bytes) (w : World)
      → rank server + length w.answers < f
      → Returns (length w.answers) (start_auto_config_for_server platform f server access msisdn w)
  unfolding start_auto_config_for_server start_auto_config_for_server_inner
  start_auto_config_for_server-Returns zero server access msisdn w h = absurd (omega arith)
  start_auto_config_for_server-Returns (suc f) server access msisdn w h =
      start_found-Returns (start_auto_config_for_server platform f) f
        (start_auto_config_for_server-Returns f) server access msisdn w (omega arith)
        (stored_info platform server w)
