-- ===== src/Lib.antt =====
-- A verification library for cmtp-responder, the device side of the Media Transfer Protocol.
--
-- A host sends command blocks; the responder (src/mtp_cmd_handler.c) answers from its entities
-- (src/entity/): a device with stores, a store with objects, an object with its properties. The
-- command handler calls the device, the device its stores, a store the list of its objects and the
-- arrays of handles, and data travels in blocks (src/ptp_container.c) built of counted arrays and
-- strings (src/entity/mtp_property.c).
--
-- Property/PtpArray models `ptp_array_t` of src/entity/mtp_property.c: `init_ptparray` is
-- `_prop_init_ptparray`, and so on for every operation. The memory block is the list of its
-- elements, and the allocator is a parameter; GLib's grants every request that returns. Sizes are
-- computed in 32 bits; the bound of 2^26 elements is far more than the handles of a device.
-- Property/PtpString models `ptp_string_t`: a count that includes the terminator, and 16-bit units. A
-- `char` is signed, as it is on x86.
-- Property/Value models the validity of property values and the current value of an integer
-- (`_prop_is_valid_integer`, `_prop_set_current_integer` and their like). Property/Desc models
-- the description of an object property (`_prop_size_obj_prop_desc`, `_prop_pack_obj_prop_desc`,
-- which has no result for 2^16 enumerated values, and what makes a description),
-- Property/Interdep the lists of interdependent properties, Property/Defaults the table of the
-- default descriptions and its lookups. What a packing function writes through its moving
-- pointer is a `Write` of Base/Cursor, and `pack_by` is its guard.
-- Container models src/ptp_container.c on a little-endian machine. A copy of parameters that leaves
-- the structure is `none`.
-- Entity/Object models src/entity/mtp_object.c: the creation of an object and its references to its
-- children (`_entity_add_reference_child_array` and its like). Entity/Object/Info, Entity/Store/Info
-- and Entity/Device/Info are the ObjectInfo, StorageInfo and DeviceInfo data sets
-- (`_entity_pack_obj_info`, `_entity_pack_store_info`, `_pack_device_info`).
-- Entity/Store models src/entity/mtp_store.c. The linked list of objects is a list, and an object is
-- known by its handle. `_entity_X` is `X`; `check_parent` is `_entity_check_if_B_parent_of_A`,
-- `tree_size` is `_entity_get_object_tree_size`, and `remove_object` is
-- `_entity_remove_object_mtp_store`. Store/Delete is the deletion, a function of an `Env` that
-- answers for the file system and for the flags that other threads set, at each time anew.
-- Store/Enumerate is `_entity_store_recursive_enum_folder_objects` over the tree of what the file system
-- gives.
-- Entity/Device models the lookups and the deletion of src/entity/mtp_device.c.
-- Handler models src/mtp_cmd_handler.c and src/mtp_cmd_handler_util.c: the state of the handler with
-- what it sent, and a `World` that answers for the transport, the host's data and the file system at
-- each time anew. Handler/Sessions, Reads and Writes hold the handlers (`__open_session` is
-- `open_session`; `__get_storage_ids`, `__get_object_handles` and `__delete_object` are `storage_ids`,
-- `object_handles` and `delete`), Handler/Process the dispatch (`__process_commands`), Handler/Util
-- and Handler/Incoming the operations behind them (`_hutil_X` is `X`). A handler that may run out of
-- fuel or write outside an array has an optional result. Handler/Receive is the reception of packets
-- (`_receive_mq_data_cb`): a `Mgr` is `g_mtp_mgr` with the state of the handler, and a temporary file
-- is the list of the bytes that were written to it. Handler/Incoming/Parse is about the data set of
-- Entity/Object/Info read back.
-- Transport models what src/transport/mtp_transport.c puts on the queue to the USB writer and one
-- round of that writer (src/transport/mtp_usb_driver.c); the queue takes each message or not as a
-- parameter says. Transport/Control models `__handle_control_request`.
-- Nodes models src/util/mtp_list.c with its nodes in memory (`_util_delete_node` is
-- `delete_node_at`, its loop `seek`, which is given a round for each node). The other components take
-- such a list as the list of its values.
-- Support models the paths, wide strings and identifiers of src/util/mtp_support.c (`_util_X` is
-- `X`). Printing a number and looking for a file are parameters.
-- Base holds the Boolean tests, lists over the native numbers, and memory blocks of bytes.
-- Examples holds concrete runs.
--
-- Most loops are structural recursions on the number of rounds left or on the list read. The
-- recursion over an object's tree runs on fuel: a child has a larger handle than its parent, since
-- it is added later, so fuel above the largest handle is enough. The ancestry check needs two rounds
-- where only folders have children. The loop that deletes all objects is given one round for each
-- object at the start. The packets of a file are given one round for each byte, since a packet without
-- bytes ends the transfer. The loop that cuts data into packets is given one round for each byte and
-- one more, since a packet has at least one byte.
--
-- Not modelled: threads, the queues of the system, USB and file-system calls, configuration, logging,
-- the release of memory, the lists of property values, the copying of object trees. The data sets that
-- the handlers send, the path helpers that they call and the files that an enumeration
-- finds are members of `World`. What lies in memory behind
-- the literal that an ObjectInfo data set takes its keywords from is a parameter.
pub mod Base
pub mod Property
pub mod Container
pub mod Entity
pub mod Handler
pub mod Transport
pub mod Support
pub mod Nodes
pub mod Examples
