-- ===== src/Lib.antt =====
-- Networkat SD-WAN portal: the client pages' own logic, in client/static/js.
--
-- The pages run in the browser and talk to the portal's server over HTTP. Before a request they
-- validate and normalise what the user typed; network_math.js is the validator that all pages
-- share. The firewall page (firewall.js) keeps the list of rules as the server sent it, lets the
-- user move rules, shows a banner while the order differs from the fetched one, and sends the new
-- order; its form for a rule validates addresses, ports and references to address list aliases,
-- which are names for the user and ids for the server. The aliases page (aliases.js) keeps those lists
-- and the resolver's settings, and the web filter page (web_filter.js) has rules whose domains are
-- references to lists. The windows of the intrusion detection (ids_win_networks.js and
-- ids_win_custom_rules.js) stage what the user changes, or build the conditions of a rule from a
-- form, and send the result as one request. The system logs page merges pages of entries with
-- entries that arrive on an event stream, and reconnects with a back-off.
--
-- Which file models which part:
--   NetworkMath/Ipv4: client/static/js/network_math.js, `parseAndValidateIPv4`; its steps are
--     `parse_octet(s)`, `parse_mask`, `netmask32` and so on, in the order of the source, and every
--     early return is an error constructor. Grammar, Normal, Network and Octets hold the proofs.
--   NetworkMath/Dns: `validateDNSName` and `validateHostname` of the same file; the regular
--     expressions are functions on texts.
--   Alias: client/static/js/firewall.js, `resolveAliasNamesToIds` and `resolveAliasIdToName`; the
--     page's `cachedAddressLists` is an argument.
--   Firewall/Addresses and Firewall/Ports: `validateAddressInput`, `validateCommentInput` and
--     `validatePortInput` of the same file.
--   Firewall/Order: `moveRuleUp`, `moveRuleDown`, `changeRuleOrderDirectly`, `handleDragEnd`,
--     `checkOrderChanges`, `submitReorder` and the state that `fetchRules` sets, as functions on a
--     page record; Steps has the edits as a step relation.
--   Firewall/RuleForm: `submitAddRule` of the same file up to its request: the marks at the fields,
--     the payload and the order. It uses the validators and the alias references above.
--   Firewall/AliasEntry: `validateAliasEntry`, `isHostnameMatchingLocalDomain` and the validators for
--     an alias list's name and comment.
--   AliasLists: client/static/js/aliases.js. Entry has the page's own validators; Rows the loop over
--     the rows of the form for an alias, with the validator as a parameter (`IsStable` in Rows/Again
--     is what the loop asks of it); Save the requests of `submitAddressList`, `deleteAddressList` and
--     `syncAddressLists`, with the server's answers as a function; Resolver the resolver's settings,
--     `populateResolverModal` and `submitResolverConfig`.
--   WebFilter: client/static/js/web_filter.js. References has the references to aliases and the
--     validators of the fields; RuleForm `openEditRuleModal` and `submitRuleForm` up to its request;
--     AliasForm `submitAliasForm` and `deleteAlias`, on the loop of AliasLists/Rows with its own validator.
--   Firewall/Bulk: the checkboxes of the rule table, the bar with its timers as events,
--     `applyBulkAction`, `deleteRule` and `toggleRule`.
--   SystemLogs/Entries: client/static/js/system_logs.js, the list of entries, with the answers of the
--     server as events that come at any time; Sorted, Events, Races and Gating hold the proofs.
--   SystemLogs/Stream: the live stream of the same file as a state with callbacks; States has the
--     steps. Streams are numbered, so that a callback of a replaced stream can be told apart.
--   Ids/Escape and Ids/Cache: client/static/js/ids_common.js, `esc`, and `cached`, `bust` and what
--     `request` does to the shared reads. Promises are numbered in the order of the requests.
--   Ids/Networks: client/static/js/ids_win_networks.js. Fields has `okAddr`, `parse` and `checkForm`;
--     Staging the rows with their staged changes, `doAdd`, `doEdit`, the buttons of a row, `discard`
--     and `listBody`; Ports `checkPorts` and the handlers of a port field; Save the state of the
--     window, `takeDoc` and `save`. Discard, Adding, Again and Changes hold the proofs.
--   Ids/CustomRules: client/static/js/ids_win_custom_rules.js. Fields has `fromServer`, Conditions
--     `resolve` and `conditions`, Checks `check` and the ways to the conditions that are sent; Parts
--     says what a rule of the server is, Reading, Reopen and Complete hold the proofs. Form has what
--     clicks and typing do to the form, with Tidy and Steps; Staging `fsKey`, the rows with their
--     staged changes and `save` up to its request, with Keys.
--   Peers: client/static/js/peers.js, the status title of a peer that is away. A date is a number of
--     milliseconds, read by the browser.
--   PeerDetails: client/static/js/peer_details.js, `validateNameField` and `validateNetworkField`,
--     which ask the validators of network_math.js and compare with the other peers and routes.
--   SystemLogs/Pause: the duration fields of the window that pauses the logs.
--   Prelude: texts as UTF-16 code units with `trim`, `split`, `join`; numerals and `parseInt`; 32-bit
--     shifts; lists; results of validators. Tests: runs on concrete inputs.
--
-- Numbers are natural numbers. `parseInt` on a text of digits is exact, where JavaScript rounds
-- above 2^53; the callers reject such numbers as out of bounds, but for the place of a web filter
-- rule, where Prelude/ParseInt has the rounding to a double written out. The 32-bit operators have
-- their wrap-around written out in Prelude/Word. `toLowerCase` acts on the ASCII letters and on
-- the Kelvin sign, which is enough where one of two texts compared after it is ASCII, as addresses
-- and domains are. References and names of aliases may have other letters on both sides, and
-- WebFilter and Ids/Networks take two that differ in the case of such a letter for different. No
-- definition needs fuel but two: the printing of a numeral, which takes one round more than the
-- number itself, and has fewer digits than that; and the rounding to a double, which takes 972
-- rounds, after which the double is infinite. An input that is not a string is `none`, and
-- answered as the source does. A field of an alias is there or missing; null is not modelled. Rule
-- numbers are natural numbers; a write to `currentRules[-1]` is the fault `none`.
--
-- Not modelled: drawing and events of the pages, the tables of the aliases and web filter pages, the
-- copies of their windows in firewall.js, what the peers and IDS pages do beyond the parts above, the
-- server (Python), and the landing page.
pub mod Prelude
pub mod NetworkMath
pub mod Alias
pub mod AliasLists
pub mod Firewall
pub mod SystemLogs
pub mod Ids
pub mod WebFilter
pub mod Peers
pub mod PeerDetails
mod Tests
